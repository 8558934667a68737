-- ===== src/Runtime/Facts.antt =====
-- smeme/reasoning/runtime/canonical_facts.py and smeme/reasoning/cevi/fact_projection.py: the facts
-- that answers give, and their projection to literals of the theory. The fields of a fact that only
-- the audit reads (its source span, and the reserved ones) are left out: a `CanonicalFactRecord` holds
-- its span to the length that a `BlobEvidenceItem` of smeme/reasoning/runtime/schemas.py allows, so
-- that of the item's checks only the one of its atom can fail.
use smeme.Base.{
  false, ℕ, Text, false, ◌==◌, mem, leb, nat_beq, ◌&&◌, all, is_blank, Bool, not, ◌||◌, ltb,
  if◌then◌else◌, Option, none, some, List, [], ◌∷◌, ◌++◌, find, length,
}
use smeme.Base.Result.{Result, ok, err, raise_if, ◌>>=◌, ◌>>◌}
use smeme.Ir.Types.{Ir, IrNode, IrQuestionShape, question, conclusion, radio}
use smeme.Ir.Validate.{node_by_id}
use smeme.Runtime.Input.{
  Answer, null, text, other, RawAnswers, max_question_id_len, max_radio_or_option_str_len,
}
use smeme.Theory.Formula.{Formula, atom, neg}
use smeme.Theory.Symbols.{Platform, radio_option_symbol_name}

pub data EvidenceConfidence : Type 0 where
  explicit absent : EvidenceConfidence

pub record CanonicalFactRecord : Type 0 where
  pub question_id : Text
  pub value : Bool
  pub confidence : EvidenceConfidence
  pub option_label : Option Text

pub data FactError : Type 0 where
  grounding_failed : Text → FactError
  unknown_question : Text → FactError
  not_a_radio : Text → FactError
  label_not_offered : Text → FactError
  -- the `ValidationError` of a `BlobEvidenceItem`
  bad_evidence_atom : Text → FactError

-- `str(val)` of `raw_answers.get(qid)`, where it is an answer: neither null nor blank.
unfoldable pub answer_of : RawAnswers → Text → Option Text
unfolding is_blank
answer_of raw qid = elim (find (λ (x : Text × Answer). x.0 == qid) raw) [
  | none ↦ none
  | some (_, v) ↦ elim v [
    | null ↦ none
    | other s ↦ if is_blank s then none else some s
    | text s ↦ if is_blank s then none else some s
  ]
]

-- The record of one option, with the length checks of its construction.
unfoldable pub make_fact : Text → Option Text → Text → Result FactError CanonicalFactRecord
make_fact qid answer opt = do
  raise_if (ltb max_question_id_len (length qid) || ltb max_radio_or_option_str_len (length opt))
      (grounding_failed qid)
  ok (record {
    question_id = qid;
    value = elim answer [ none ↦ opt == [] | some a ↦ opt == a ];
    confidence = elim answer [ none ↦ absent | some _ ↦ explicit ];
    option_label = some opt;
  })

unfoldable pub option_facts :
    Text → Option Text → List Text → Result FactError (List CanonicalFactRecord)
unfolding make_fact
option_facts qid answer [] = ok []
option_facts qid answer (opt ∷ opts) = do
  fact ← make_fact qid answer opt
  facts ← option_facts qid answer opts
  ok (fact ∷ facts)

unfoldable pub node_facts : RawAnswers → IrNode → Result FactError (List CanonicalFactRecord)
unfolding option_facts answer_of
node_facts raw n = elim n.kind [
  | conclusion ↦ ok []
  | question ↦ elim n.question [
    | none ↦ ok []
    | some q ↦ if q.qtype == radio then option_facts n.id (answer_of raw n.id) q.options else ok []
  ]
]

unfoldable pub facts_from : RawAnswers → List IrNode → Result FactError (List CanonicalFactRecord)
unfolding node_facts
facts_from raw [] = ok []
facts_from raw (n ∷ ns) = do here ← node_facts raw n; later ← facts_from raw ns; ok (here ++ later)

unfoldable pub raw_answers_to_canonical_facts :
    Ir → RawAnswers → Result FactError (List CanonicalFactRecord)
unfolding facts_from
raw_answers_to_canonical_facts ir raw = facts_from raw ir.nodes

abbrev pub max_atom_len : ℕ
max_atom_len = 256

-- `[A-Za-z0-9_]`
unfoldable pub is_word : ℕ → Bool
is_word c = leb 65 c && leb c 90 || leb 97 c && leb c 122 || leb 48 c && leb c 57 || nat_beq c 95

-- The checks of the field `atom` of a `BlobEvidenceItem`: its length and the pattern
-- `^[A-Za-z][A-Za-z0-9_]*$`.
unfoldable pub is_evidence_atom : Text → Bool
unfolding is_word
is_evidence_atom [] = false
is_evidence_atom (c ∷ s) =
    (leb 65 c && leb c 90 || leb 97 c && leb c 122)
    && all is_word s
    && leb (length (c ∷ s)) max_atom_len

module _ (p : Platform) where
  -- The tests of a fact against the question of its id.
  unfoldable pub symbol_for_option : Text → Option Text → IrQuestionShape → Result FactError Text
  symbol_for_option qid label q = do
    raise_if (not (q.qtype == radio)) (not_a_radio qid)
    elim label [
      | none ↦ err (label_not_offered qid)
      | some opt ↦
          if mem opt q.options
          then ok (radio_option_symbol_name p qid opt)
          else err (label_not_offered qid)
    ]

  unfoldable pub solver_symbol_for_canonical_fact : Ir → CanonicalFactRecord → Result FactError Text
  unfolding node_by_id symbol_for_option
  solver_symbol_for_canonical_fact ir rec = elim (node_by_id ir rec.question_id) [
    | none ↦ err (unknown_question rec.question_id)
    | some n ↦ elim n.kind [
      | conclusion ↦ err (unknown_question rec.question_id)
      | question ↦ elim n.question [
        | none ↦ err (unknown_question rec.question_id)
        | some q ↦ symbol_for_option rec.question_id rec.option_label q
      ]
    ]
  ]

  -- What one fact asserts; an absent answer asserts nothing.
  unfoldable pub fact_literal : CanonicalFactRecord → Text → List Formula
  fact_literal rec sym = elim rec.confidence [
    | absent ↦ []
    | explicit ↦ (if rec.value then atom sym else neg (atom sym)) ∷ []
  ]

  unfoldable pub apply_canonical_facts_to_solver :
      Ir → List CanonicalFactRecord → Result FactError (List Formula)
  unfolding solver_symbol_for_canonical_fact is_evidence_atom fact_literal
  apply_canonical_facts_to_solver ir [] = ok []
  apply_canonical_facts_to_solver ir (rec ∷ recs) = do
    sym ← solver_symbol_for_canonical_fact ir rec
    raise_if (not (is_evidence_atom sym)) (bad_evidence_atom sym)
    later ← apply_canonical_facts_to_solver ir recs
    ok (fact_literal rec sym ++ later)
