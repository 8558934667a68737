-- ===== src/Examples/Sessions.antt =====
-- A session on the sample: one answer admitted, verified, and retracted.
use smeme.Base.{Text, codes, [], ◌∷◌, ◌≡◌, refl, true, false, head, ◌==◌, is_blank}
use smeme.Base.Result.{ok}
use smeme.Runtime.Input.{validate_raw_answers_for_ir}
use smeme.Inquire.Types.{
  AdmittedAssertion, VerificationKey, verification_key_for, make_assertion, same_assertion,
  logical_evidence,
}
use smeme.Inquire.Transition.{
  retain, retract, replace, VerificationTransition, applied, admit_assertion,
  apply_verification_decision, is_key_of,
}
use smeme.Inquire.Transition.Invariant.{IsSession, admit_assertion-IsSession}
use smeme.Inquire.Session.{
  SessionState, admits, decides, Reachable, start, then_move, IsSound, Reachable-IsSound,
  apply_verification_decision_total, apply_verification_decision_same_base,
  apply_verification_decision_revoked,
}
use smeme.Examples.Trees.{sample_ir}

abbrev artifact : Text
artifact = codes "decide.json"

abbrev yes_assertion : AdmittedAssertion
yes_assertion = record {
  question_id = codes "q1";
  option = codes "Yes";
  provenance_id = codes "form";
}

abbrev yes_key : VerificationKey
yes_key = record {
  artifact_identity = artifact;
  question_id = codes "q1";
  option = codes "Yes";
  provenance_identity = codes "form";
  pv_version = codes "1";
}

abbrev one_answer : SessionState
one_answer = record { admitted = yes_assertion ∷ []; verified = [] }

admits_yes :
    admit_assertion sample_ir [] (codes "q1") (codes "Yes") (codes "form") ≡ ok (yes_assertion ∷ [])
unfolding admit_assertion make_assertion is_blank ◌==◌ logical_evidence validate_raw_answers_for_ir
admits_yes = refl

abbrev retained : VerificationTransition
retained = record {
  admitted = yes_assertion ∷ [];
  verified = yes_key ∷ [];
  base_changed = false;
  status = applied;
}

abbrev retracted : VerificationTransition
retracted = record { admitted = []; verified = []; base_changed = true; status = applied }

retains_yes :
    apply_verification_decision sample_ir
      (yes_assertion ∷ [])
      []
      yes_assertion
      artifact
      (codes "1")
      retain
    ≡ ok retained
unfolding apply_verification_decision verification_key_for same_assertion ◌==◌
retains_yes = refl

retracts_yes :
    apply_verification_decision sample_ir
      (yes_assertion ∷ [])
      (yes_key ∷ [])
      yes_assertion
      artifact
      (codes "1")
      retract
    ≡ ok retracted
unfolding apply_verification_decision same_assertion is_key_of ◌==◌
retracts_yes = refl

abbrev verified_state : SessionState
verified_state = record { admitted = yes_assertion ∷ []; verified = yes_key ∷ [] }

one_answer-Reachable : Reachable sample_ir artifact one_answer
one_answer-Reachable =
    then_move start
      (admits (codes "q1") (codes "Yes") (codes "form") (yes_assertion ∷ []) admits_yes)

verified_state-Reachable : Reachable sample_ir artifact verified_state
verified_state-Reachable =
    then_move one_answer-Reachable (decides yes_assertion (codes "1") retain retained retains_yes)

Reachable-IsSound_example : IsSound sample_ir artifact verified_state
Reachable-IsSound_example = Reachable-IsSound sample_ir artifact verified_state-Reachable

blank-IsSession : IsSession sample_ir artifact [] []
blank-IsSession = record {
  distinct = tt;
  sourced = λ a m. elim m [ ];
  accepted = λ a m. elim m [ ];
  live = λ k m e. elim m [ ];
}

one_answer-IsSession : IsSession sample_ir artifact (yes_assertion ∷ []) []
one_answer-IsSession =
    admit_assertion-IsSession sample_ir artifact [] (yes_assertion ∷ []) [] (codes "q1")
      (codes "Yes") (codes "form") blank-IsSession admits_yes

apply_verification_decision_total_example :
    (t : VerificationTransition) × (apply_verification_decision sample_ir
        (yes_assertion ∷ [])
        []
        yes_assertion
        artifact
        (codes "1")
        (replace (codes "No") (codes "letter"))
      ≡ ok t)
apply_verification_decision_total_example =
    apply_verification_decision_total sample_ir artifact (yes_assertion ∷ []) [] yes_assertion
      (codes "1") (replace (codes "No") (codes "letter")) one_answer-IsSession
      (unfold is_blank in refl)

apply_verification_decision_same_base_example : retained.admitted ≡ yes_assertion ∷ []
apply_verification_decision_same_base_example =
    apply_verification_decision_same_base sample_ir artifact (yes_assertion ∷ []) [] yes_assertion
      (codes "1") retain retained retains_yes refl

-- A key of another artifact survives the retraction.
abbrev other_key : VerificationKey
other_key = record {
  artifact_identity = codes "other.json";
  question_id = codes "q1";
  option = codes "Yes";
  provenance_identity = codes "form";
  pv_version = codes "1";
}

abbrev retracted_other : VerificationTransition
retracted_other = record {
  admitted = [];
  verified = other_key ∷ [];
  base_changed = true;
  status = applied;
}

retracts_one_artifact :
    apply_verification_decision sample_ir
      (yes_assertion ∷ [])
      (yes_key ∷ other_key ∷ [])
      yes_assertion
      artifact
      (codes "1")
      retract
    ≡ ok retracted_other
unfolding apply_verification_decision same_assertion is_key_of ◌==◌
retracts_one_artifact = refl

apply_verification_decision_revoked_example : is_key_of yes_assertion artifact other_key ≡ false
apply_verification_decision_revoked_example =
    apply_verification_decision_revoked sample_ir artifact (yes_assertion ∷ [])
      (yes_key ∷ other_key ∷ []) yes_assertion (codes "1") retract retracted_other
      retracts_one_artifact refl other_key head
