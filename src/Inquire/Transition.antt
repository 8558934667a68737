-- ===== src/Inquire/Transition.antt =====
-- smeme/reasoning/runtime/inquire/transition.py: admission of an assertion and the application of a
-- verification decision. A frozenset of keys is a list; only membership is read from it.
pub mod Projection
pub mod Invariant
use smeme.Base.{
  any, Text, ◌==◌, mem, is_blank, Bool, true, false, not, ◌&&◌, Option, none, some, List, [], ◌∷◌,
  ◌++◌, map, keep, if◌then◌else◌,
}
use smeme.Base.Result.{Result, ok, err, raise_if, ◌>>=◌, ◌>>◌}
use smeme.Ir.Types.{Ir}
use smeme.Runtime.Input.{Answer, text, RawAnswers, InputError, validate_raw_answers_for_ir}
use smeme.Inquire.Types.{
  AdmittedAssertion, VerificationKey, InquireError, already_admitted, invalid_input, Evidence,
  logical_evidence, verification_key_for, make_assertion, same_assertion,
}

pub data VerificationDecision : Type 0 where
  retain : VerificationDecision
  retract : VerificationDecision
  replace : Text → Text → VerificationDecision
  insufficient : VerificationDecision

pub data TransitionStatus : Type 0 where
  applied admission_rejected assertion_mismatch : TransitionStatus

pub record VerificationTransition : Type 0 where
  pub admitted : List AdmittedAssertion
  pub verified : List VerificationKey
  pub base_changed : Bool
  pub status : TransitionStatus

unfoldable pub unchanged :
    List AdmittedAssertion → List VerificationKey → TransitionStatus → VerificationTransition
unchanged admitted verified status = record {
  admitted = admitted;
  verified = verified;
  base_changed = false;
  status = status;
}

-- The assertions of one question, and the rest.
abbrev pub matching : Text → List AdmittedAssertion → List AdmittedAssertion
matching qid = keep (λ (a : AdmittedAssertion). a.question_id == qid)

abbrev pub remaining : Text → List AdmittedAssertion → List AdmittedAssertion
remaining qid = keep (λ (a : AdmittedAssertion). not (a.question_id == qid))

unfoldable pub only : List AdmittedAssertion → Option AdmittedAssertion
only (a ∷ []) = some a
only _ = none

unfoldable pub live_assertion : List AdmittedAssertion → Text → Option AdmittedAssertion
unfolding only
live_assertion admitted question_id = only (matching question_id admitted)

-- A key of the assertion in this artifact, of any policy version.
unfoldable pub is_key_of : AdmittedAssertion → Text → VerificationKey → Bool
is_key_of a artifact_identity k =
    k.artifact_identity == artifact_identity
    && k.question_id == a.question_id
    && k.option == a.option
    && k.provenance_identity == a.provenance_id

unfoldable pub drop_keys_for_assertion :
    List VerificationKey → AdmittedAssertion → Text → List VerificationKey
unfolding is_key_of
drop_keys_for_assertion verified a artifact_identity =
    keep (λ k. not (is_key_of a artifact_identity k)) verified

-- `proposed[q] = a` on a copy of the dict, and the dict as raw answers.
unfoldable pub set_answer : Text → Text → Evidence → Evidence
set_answer q a [] = (q, a) ∷ []
set_answer q a ((k, b) ∷ rest) = if k == q then (k, a) ∷ rest else (k, b) ∷ set_answer q a rest

abbrev pub as_answers : Evidence → RawAnswers
as_answers = map (λ (q, a). (q, text a))

abbrev pub has_answer : Text → Evidence → Bool
has_answer q = any (λ (k, _). k == q)

unfoldable pub lift_input : Result InputError Unit → Result InquireError Unit
lift_input (ok _) = ok tt
lift_input (err e) = err (invalid_input e)

unfoldable pub admit_assertion :
    Ir → List AdmittedAssertion → Text → Text → Text → Result InquireError (List AdmittedAssertion)
unfolding set_answer lift_input
admit_assertion ir admitted question_id option provenance_id = do
  evidence ← logical_evidence admitted
  raise_if (has_answer question_id evidence) (already_admitted question_id)
  lift_input (validate_raw_answers_for_ir ir (as_answers (set_answer question_id option evidence)))
  assertion ← make_assertion question_id option provenance_id
  ok (admitted ++ assertion ∷ [])

unfoldable pub apply_replace :
    Ir
    → List AdmittedAssertion
    → List VerificationKey
    → AdmittedAssertion
    → Text
    → Text
    → Text
    → Evidence
    → Result InquireError VerificationTransition
unfolding set_answer unchanged drop_keys_for_assertion
apply_replace ir admitted verified live artifact_identity option provenance_id evidence =
    elim (validate_raw_answers_for_ir ir
      (as_answers (set_answer live.question_id option evidence))) [
        | err _ ↦ ok (unchanged admitted verified admission_rejected)
        | ok _ ↦ (do
          replacement ← make_assertion live.question_id option provenance_id
          ok (record {
            admitted = remaining live.question_id admitted ++ replacement ∷ [];
            verified = drop_keys_for_assertion verified live artifact_identity;
            base_changed = true;
            status = applied;
          }))
      ]

unfoldable pub apply_to_live :
    Ir
    → List AdmittedAssertion
    → List VerificationKey
    → AdmittedAssertion
    → Text
    → Text
    → VerificationDecision
    → Result InquireError VerificationTransition
unfolding apply_replace
apply_to_live ir admitted verified live artifact_identity pv_version insufficient =
    ok (unchanged admitted verified applied)
apply_to_live ir admitted verified live artifact_identity pv_version retain = ok (record {
  admitted = admitted;
  verified = verification_key_for live artifact_identity pv_version ∷ verified;
  base_changed = false;
  status = applied;
})
apply_to_live ir admitted verified live artifact_identity pv_version retract = ok (record {
  admitted = remaining live.question_id admitted;
  verified = drop_keys_for_assertion verified live artifact_identity;
  base_changed = true;
  status = applied;
})
apply_to_live ir admitted verified live artifact_identity pv_version
      (replace option provenance_id) =
    do
      evidence ← logical_evidence admitted
      apply_replace ir admitted verified live artifact_identity option provenance_id evidence

-- `Replace.__post_init__` refuses a blank provenance before this function is called; a replacement
-- with one raises here the error that its constructor raises.
unfoldable pub apply_verification_decision :
    Ir
    → List AdmittedAssertion
    → List VerificationKey
    → AdmittedAssertion
    → Text
    → Text
    → VerificationDecision
    → Result InquireError VerificationTransition
unfolding live_assertion same_assertion apply_to_live
apply_verification_decision ir admitted verified assertion artifact_identity pv_version decision =
    elim (live_assertion admitted assertion.question_id) [
      | none ↦ ok (unchanged admitted verified assertion_mismatch)
      | some live ↦
          if same_assertion live assertion
          then apply_to_live ir admitted verified live artifact_identity pv_version decision
          else ok (unchanged admitted verified assertion_mismatch)
    ]
