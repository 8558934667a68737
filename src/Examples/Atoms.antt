-- ===== src/Examples/Atoms.antt =====
-- Answers to Irs with and without a letter above ASCII in an option.
use smeme.Base.{
  codes, ◌==◌, text_leb, sort, distinct, is_blank, Text, leb, true, false, some, In, List, [], ◌∷◌,
  ◌++◌, ◌&&◌, ◌≡◌, refl, ◌⊎◌,
}
use smeme.Base.Result.{ok, err}
use smeme.Ir.Types.{Ir}
use smeme.Ir.Dag.{update}
use smeme.Ir.Validate.{is_valid}
use smeme.Ir.Validate.Spec.{IsValidIr}
use smeme.Ir.Validate.Exact.{is_valid_iff}
use smeme.Theory.Formula.{Formula}
use smeme.Theory.Symbols.{Platform, z3_sym_fragment, radio_option_symbol_name}
use smeme.Runtime.Input.{text, RawAnswers, validate_raw_answers_for_ir}
use smeme.Runtime.Facts.{
  CanonicalFactRecord, explicit, is_word, bad_evidence_atom, raw_answers_to_canonical_facts,
  apply_canonical_facts_to_solver,
}
use smeme.Runtime.Atoms.{HasHexDigests, HasPlainOptions, is_plain_option, question_options}
use smeme.Runtime.Assumptions.{validate_assumptions}
use smeme.Runtime.Evaluate.{EvaluationResult, evaluate_reasoning}
use smeme.Runtime.Aligned.{raw_facts_mappable, evaluate_reasoning_returns}
use smeme.Examples.Trees.{sample_ir, ask, end, edge, guard}
use smeme.Examples.Irs.{sample_valid}
use smeme.Examples.Evaluations.{small_check, answered, yes_facts, answers_give_facts, force_ok}

-- The letters from 192 to 255 are alphanumeric, and the digest is a constant.
abbrev latin : Platform
latin = record {
  wide_alnum = λ c. leb 192 c && leb c 255;
  wide_digit = λ c. false;
  sha256_hex = λ s. codes "e3b0c44298fc1c149afbf4c8996fb924";
}

latin-HasHexDigests : HasHexDigests latin
latin-HasHexDigests s = refl

sample-HasPlainOptions : HasPlainOptions latin sample_ir
unfolding question_options is_plain_option z3_sym_fragment is_word
sample-HasPlainOptions = refl

answers_accepted : validate_raw_answers_for_ir sample_ir answered ≡ ok tt
unfolding validate_raw_answers_for_ir is_blank ◌==◌
answers_accepted = refl

force_ok_valid : validate_assumptions sample_ir force_ok ≡ ok tt
unfolding validate_assumptions distinct sort text_leb ◌==◌
force_ok_valid = refl

evaluate_reasoning_returns_example :
    (r : EvaluationResult) × (evaluate_reasoning latin small_check sample_ir answered false force_ok
      ≡ ok r)
evaluate_reasoning_returns_example =
    (evaluate_reasoning_returns latin sample_ir sample_valid latin-HasHexDigests small_check
        answered false force_ok yes_facts answers_accepted answers_give_facts force_ok_valid).1
      sample-HasPlainOptions

abbrev cafe : Text
cafe = codes "Caf" ++ 233 ∷ []

-- The sample with an option that ends with an accented letter.
abbrev cafe_ir : Ir
cafe_ir = record {
  format_version = 3;
  nodes = end (codes "no") ∷ ask (codes "q1") (cafe ∷ codes "No" ∷ []) ∷ end (codes "ok") ∷ [];
  edges =
      edge (codes "q1") (codes "no") (codes "g_000000")
      ∷ edge (codes "q1") (codes "ok") (codes "g_000001")
      ∷ [];
  guards = guard (codes "g_000000") (codes "No") ∷ guard (codes "g_000001") cafe ∷ [];
}

cafe_accepted : is_valid cafe_ir ≡ true
unfolding is_valid ◌==◌ sort text_leb update
cafe_accepted = refl

cafe_valid : IsValidIr cafe_ir
cafe_valid = (is_valid_iff cafe_ir).0 cafe_accepted

abbrev cafe_answer : RawAnswers
cafe_answer = (codes "q1", text cafe) ∷ []

abbrev cafe_facts : List CanonicalFactRecord
cafe_facts =
    record {
      question_id = codes "q1";
      value = true;
      confidence = explicit;
      option_label = some cafe;
    }
    ∷ record {
      question_id = codes "q1";
      value = false;
      confidence = explicit;
      option_label = some (codes "No");
    }
    ∷ []

cafe_answer_gives_facts : raw_answers_to_canonical_facts cafe_ir cafe_answer ≡ ok cafe_facts
unfolding raw_answers_to_canonical_facts is_blank ◌==◌
cafe_answer_gives_facts = refl

cafe_raises :
    apply_canonical_facts_to_solver latin cafe_ir cafe_facts
    ≡ err (bad_evidence_atom (radio_option_symbol_name latin (codes "q1") cafe))
unfolding apply_canonical_facts_to_solver ◌==◌ radio_option_symbol_name
cafe_raises = refl

raw_facts_mappable_example :
    (HasPlainOptions latin cafe_ir
      × (ls : List Formula) × (apply_canonical_facts_to_solver latin cafe_ir cafe_facts ≡ ok ls))
    ⊎ ((q : Text) × (o : Text) × In (q, o) (question_options cafe_ir.nodes)
        × (is_plain_option latin (q, o) ≡ false)
        × (apply_canonical_facts_to_solver latin cafe_ir cafe_facts
            ≡ err (bad_evidence_atom (radio_option_symbol_name latin q o))))
raw_facts_mappable_example =
    raw_facts_mappable latin cafe_ir cafe_valid latin-HasHexDigests cafe_answer cafe_facts
      cafe_answer_gives_facts
