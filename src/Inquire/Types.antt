-- ===== src/Inquire/Types.antt =====
-- smeme/reasoning/runtime/inquire/types.py: assertions, verification keys and logical evidence.
use smeme.Base.{Text, ◌==◌, mem, is_blank, Bool, ◌&&◌, List, [], ◌∷◌, if◌then◌else◌}
use smeme.Base.Result.{Result, ok, err, raise_if, ◌>>=◌, ◌>>◌}
use smeme.Runtime.Input.{InputError}

pub record AdmittedAssertion : Type 0 where
  pub question_id : Text
  pub option : Text
  pub provenance_id : Text

pub record VerificationKey : Type 0 where
  pub artifact_identity : Text
  pub question_id : Text
  pub option : Text
  pub provenance_identity : Text
  pub pv_version : Text

-- `PremiseInvariantError` by its cause, and the errors of the validation of answers.
pub data InquireError : Type 0 where
  duplicate_question : Text → InquireError
  already_admitted : Text → InquireError
  empty_provenance : InquireError
  invalid_input : InputError → InquireError

-- The dict `{q: a}` in the order of insertion.
abbrev pub Evidence : Type 0
Evidence = List (Text × Text)

-- The loop of `logical_evidence`; `seen` holds the keys of the dict so far.
unfoldable pub evidence_from : List Text → List AdmittedAssertion → Result InquireError Evidence
evidence_from seen [] = ok []
evidence_from seen (item ∷ rest) =
    let tail_evidence = evidence_from (item.question_id ∷ seen) rest in
    if mem item.question_id seen
    then err (duplicate_question item.question_id)
    else (do more ← tail_evidence; ok ((item.question_id, item.option) ∷ more))

unfoldable pub logical_evidence : List AdmittedAssertion → Result InquireError Evidence
unfolding evidence_from
logical_evidence = evidence_from []

unfoldable pub verification_key_for : AdmittedAssertion → Text → Text → VerificationKey
verification_key_for a artifact_identity pv_version = record {
  artifact_identity = artifact_identity;
  question_id = a.question_id;
  option = a.option;
  provenance_identity = a.provenance_id;
  pv_version = pv_version;
}

-- The constructor with its `__post_init__`.
unfoldable pub make_assertion : Text → Text → Text → Result InquireError AdmittedAssertion
unfolding is_blank
make_assertion question_id option provenance_id = do
  raise_if (is_blank provenance_id) empty_provenance
  ok (record { question_id = question_id; option = option; provenance_id = provenance_id })

-- `==` of the frozen dataclasses.
unfoldable pub same_assertion : AdmittedAssertion → AdmittedAssertion → Bool
same_assertion a b =
    a.question_id == b.question_id && a.option == b.option && a.provenance_id == b.provenance_id
