-- ===== src/Runtime/Gate/Absent.antt =====
-- Without answers: the facts of smeme/reasoning/runtime/canonical_facts.py, and their projection by
-- smeme/reasoning/cevi/fact_projection.py.
use smeme.Base.{
  not, if◌then◌else◌, Text, ◌==◌, ◌≡◌, sym, subst, ap, ◌∙◌, inl, inr, Option, none, some, List, [],
  ◌∷◌, In, head, tail, In-cons, In-append_cases, Bool-cases, ◌||◌, ltb, length,
}
use smeme.Base.Result.{Result, ok, >>=-eq-ok, >>-eq-ok, ok_injective}
use smeme.Ir.Types.{Ir, IrNode, IrNodeKind, IrQuestionShape, question, conclusion, radio}
use smeme.Runtime.Input.{max_question_id_len, max_radio_or_option_str_len}
use smeme.Theory.Formula.{Formula}
use smeme.Theory.Symbols.{Platform}
use smeme.Runtime.Facts.{
  CanonicalFactRecord, FactError, absent, answer_of, make_fact, option_facts, node_facts,
  facts_from, raw_answers_to_canonical_facts, fact_literal, solver_symbol_for_canonical_fact,
  apply_canonical_facts_to_solver, is_evidence_atom,
}

abbrev AllAbsent : List CanonicalFactRecord → Type 0
AllAbsent facts = (r : CanonicalFactRecord) → In r facts → r.confidence ≡ absent

make_fact_absent :
    (qid opt : Text) (fact : CanonicalFactRecord)
    → make_fact qid none opt ≡ ok fact
    → fact.confidence ≡ absent
unfolding make_fact
make_fact_absent qid opt fact h =
    elim (Bool-cases
      (ltb max_question_id_len (length qid) || ltb max_radio_or_option_str_len (length opt))) [
        | inl e ↦ absurd (cc (rw e at h))
        | inr e ↦ sym (ap (λ (x : CanonicalFactRecord). x.confidence) (ok_injective (rw e at h)))
      ]

option_facts-AllAbsent :
    (qid : Text) (opts : List Text) (facts : List CanonicalFactRecord)
    → option_facts qid none opts ≡ ok facts
    → AllAbsent facts
unfolding option_facts make_fact
option_facts-AllAbsent qid [] facts h r m = elim (subst (In r) (sym (ok_injective h)) m) [ ]
option_facts-AllAbsent qid (opt ∷ opts) facts h r m =
    let (fact, made, h1) = >>=-eq-ok (make_fact qid none opt) _ h in
    let (rest, later, h2) = >>=-eq-ok (option_facts qid none opts) _ h1 in
    elim (In-cons (subst (In r) (sym (ok_injective h2)) m)) [
      | inl e ↦
          ap (λ (x : CanonicalFactRecord). x.confidence) e ∙ make_fact_absent qid opt fact made
      | inr there ↦ option_facts-AllAbsent qid opts rest later r there
    ]

node_facts-AllAbsent :
    (n : IrNode) (facts : List CanonicalFactRecord) → node_facts [] n ≡ ok facts → AllAbsent facts
unfolding node_facts answer_of
node_facts-AllAbsent n facts h = parts n.kind n.question h
  where
    nothing :
        ◌≡◌ {A = Result FactError (List CanonicalFactRecord)} (ok []) (ok facts) → AllAbsent facts
    nothing e r m = elim (subst (In r) (sym (ok_injective e)) m) [ ]

    parts :
        (k : IrNodeKind) (q : Option IrQuestionShape)
        → ◌≡◌ {A = Result FactError (List CanonicalFactRecord)}
            (elim k [
              | conclusion ↦ ok []
              | question ↦ elim q [
                | none ↦ ok []
                | some shape ↦
                    if shape.qtype == radio then option_facts n.id none shape.options else ok []
              ]
            ])
            (ok facts)
        → AllAbsent facts
    parts conclusion q e = nothing e
    parts question none e = nothing e
    parts question (some shape) e = elim (Bool-cases (shape.qtype == radio)) [
      | inl t ↦ option_facts-AllAbsent n.id shape.options facts (rw t at e)
      | inr f ↦ nothing (rw f at e)
    ]

facts_from-AllAbsent :
    (ns : List IrNode) (facts : List CanonicalFactRecord)
    → facts_from [] ns ≡ ok facts
    → AllAbsent facts
unfolding facts_from
facts_from-AllAbsent [] facts h r m = elim (subst (In r) (sym (ok_injective h)) m) [ ]
facts_from-AllAbsent (n ∷ ns) facts h r m =
    let (here, a, h1) = >>=-eq-ok (node_facts [] n) _ h in
    let (later, b, h2) = >>=-eq-ok (facts_from [] ns) _ h1 in
    elim (In-append_cases here (subst (In r) (sym (ok_injective h2)) m)) [
      | inl i ↦ node_facts-AllAbsent n here a r i
      | inr i ↦ facts_from-AllAbsent ns later b r i
    ]

absent_projection :
    (p : Platform) (ir : Ir) (facts : List CanonicalFactRecord) (ls : List Formula)
    → AllAbsent facts
    → apply_canonical_facts_to_solver p ir facts ≡ ok ls
    → ls ≡ []
unfolding apply_canonical_facts_to_solver fact_literal
absent_projection p ir [] ls none_said h = sym (ok_injective h)
absent_projection p ir (r ∷ rs) ls none_said h =
    let (symbol, _, h1) = >>=-eq-ok (solver_symbol_for_canonical_fact p ir r) _ h in
    let (_, h2) = >>-eq-ok (not (is_evidence_atom symbol)) _ _ h1 in
    let (later, b, h3) = >>=-eq-ok (apply_canonical_facts_to_solver p ir rs) _ h2 in
    sym (ok_injective (rw (none_said r head) at h3))
    ∙ absent_projection p ir rs later (λ x m. none_said x (tail m)) b

-- Without answers nothing is asserted.
pub no_answers_lem :
    (p : Platform) (ir : Ir) (facts : List CanonicalFactRecord) (ls : List Formula)
    → raw_answers_to_canonical_facts ir [] ≡ ok facts
    → apply_canonical_facts_to_solver p ir facts ≡ ok ls
    → ls ≡ []
unfolding raw_answers_to_canonical_facts
no_answers_lem p ir facts ls h =
    absent_projection p ir facts ls (facts_from-AllAbsent ir.nodes facts h)
