-- ===== src/Runtime/Aligned.antt =====
-- The facts that answers give, against the lookups of smeme/reasoning/cevi/fact_projection.py and
-- smeme/reasoning/runtime/evaluate.py.
use smeme.Base.{
  ◌∙◌, Text, eq_refl, Bool, true, false, not, ◌&&◌, ◌≡◌, refl, Option, none, some, List, [], ◌∷◌,
  In, head, tail, inl, inr, subst, sym, arith, find_last-key, map, ◌++◌, all, ap, ◌↔◌, ◌⊎◌, all→In,
  Bool-cases,
}
use smeme.Base.Result.{ok, err}
use smeme.Ir.Types.{Ir, IrNode, radio}
use smeme.Ir.Validate.{node_by_id}
use smeme.Ir.Validate.Spec.{IsValidIr}
use smeme.Theory.Formula.{Formula}
use smeme.Theory.Symbols.{Platform, radio_option_symbol_name}
use smeme.Runtime.Input.{RawAnswers}
use smeme.Ir.Validate.{is_valid}
use smeme.Ir.Validate.Exact.{is_valid_iff}
use smeme.Theory.Total.{compile_ir_to_z3_total}
use smeme.Runtime.Input.{validate_raw_answers_for_ir}
use smeme.Runtime.Assumptions.{ReasoningAssumptions, validate_assumptions}
use smeme.Runtime.Evaluate.{
  CheckResult, EvaluationResult, evaluate_reasoning, evaluate_with_canonical_facts, lift,
  or_key_error,
}
use smeme.Runtime.Facts.{
  CanonicalFactRecord, raw_answers_to_canonical_facts, symbol_for_option,
  solver_symbol_for_canonical_fact, apply_canonical_facts_to_solver, bad_evidence_atom,
  fact_literal,
}
use smeme.Runtime.Atoms.{
  HasHexDigests, question_options, is_plain_option, HasPlainOptions, symbol-atom,
}
use smeme.Runtime.Grounded.{
  IsAligned, AllAligned, facts_from-IsAligned, key_of, labelled_option, facts_from-keys,
  labelled_option-In,
}

module _ (p : Platform) (ir : Ir) (v : IsValidIr ir) where
  symbol-total :
      (rec : CanonicalFactRecord) (a : IsAligned ir.nodes rec)
      → solver_symbol_for_canonical_fact p ir rec
        ≡ ok (radio_option_symbol_name p rec.question_id a.label)
  unfolding solver_symbol_for_canonical_fact symbol_for_option node_by_id
  symbol-total rec a =
      let there : node_by_id ir rec.question_id ≡ some a.node =
        subst (λ k. node_by_id ir k ≡ some a.node) a.named
          (find_last-key (λ (n : IrNode). n.id) ir.nodes v.nodes_distinct a.listed) in
      rw
        (
          solver_symbol_for_canonical_fact,
          there,
          a.asks,
          a.shaped,
          a.is_radio,
          eq_refl radio,
          a.labelled,
          a.offered,
        )
        refl

  abbrev is_plain_key : Text × Option Text → Bool
  is_plain_key (q, o) = elim o [ none ↦ true | some label ↦ is_plain_option p (q, label) ]

  is_plain_key-all :
      (os : List (Text × Text))
      → all is_plain_key (map labelled_option os) ≡ all (is_plain_option p) os
  is_plain_key-all [] = refl
  is_plain_key-all (o ∷ os) = ap (λ b. is_plain_option p o && b) (is_plain_key-all os)

  module _ (hex : HasHexDigests p) where
    -- What a projection of aligned facts comes to: literals, or the first symbol that is not admitted.
    literals-cases :
        (facts : List CanonicalFactRecord)
        → AllAligned ir.nodes facts
        → ((all is_plain_key (map key_of facts) ≡ true)
            × (ls : List Formula) × (apply_canonical_facts_to_solver p ir facts ≡ ok ls))
          ⊎ ((q : Text) × (o : Text) × In (labelled_option (q, o)) (map key_of facts)
              × (is_plain_option p (q, o) ≡ false)
              × (apply_canonical_facts_to_solver p ir facts
                  ≡ err (bad_evidence_atom (radio_option_symbol_name p q o))))
    unfolding apply_canonical_facts_to_solver
    literals-cases [] h = inl (refl, [], refl)
    literals-cases (rec ∷ recs) h =
        let a = h rec head in
        let named = symbol-total rec a in
        let admitted = symbol-atom p hex rec.question_id a.label in
        elim (Bool-cases (is_plain_option p (rec.question_id, a.label))) [
          | inr e ↦ inr (
            rec.question_id,
            a.label,
            subst
                (λ l.
                  In (labelled_option (rec.question_id, a.label))
                    ((rec.question_id, l) ∷ map key_of recs))
                (sym a.labelled) head,
            e,
            rw (named, admitted ∙ e) refl,
          )
          | inl e ↦ elim (literals-cases recs (λ x m. h x (tail m))) [
            | inl (plain, ls, b) ↦ inl (
              rw (a.labelled, e, plain) refl,
              fact_literal p rec (radio_option_symbol_name p rec.question_id a.label) ++ ls,
              rw (named, admitted ∙ e, b) refl,
            )
            | inr (q, o, m, bad, b) ↦ inr (q, o, tail m, bad, rw (named, admitted ∙ e, b) refl)
          ]
        ]

    -- If digests are hexadecimal, the facts that answers to a valid Ir give are all projected, if every
    -- option of its questions is plain; else the projection raises for the symbol of an option that is
    -- not, which the item of the audit does not admit. No fact is unmappable.
    pub raw_facts_mappable :
        (raw : RawAnswers) (facts : List CanonicalFactRecord)
        → raw_answers_to_canonical_facts ir raw ≡ ok facts
        → (HasPlainOptions p ir
            × (ls : List Formula) × (apply_canonical_facts_to_solver p ir facts ≡ ok ls))
          ⊎ ((q : Text) × (o : Text) × In (q, o) (question_options ir.nodes)
              × (is_plain_option p (q, o) ≡ false)
              × (apply_canonical_facts_to_solver p ir facts
                  ≡ err (bad_evidence_atom (radio_option_symbol_name p q o))))
    unfolding raw_answers_to_canonical_facts
    raw_facts_mappable raw facts h =
        let keys = facts_from-keys raw ir.nodes v.shaped h in
        elim (literals-cases facts
          (facts_from-IsAligned ir.nodes raw ir.nodes (λ n i. (i, v.shaped n i)) h)) [
            | inl (plain, ls, done) ↦ inl (
              sym (ap (all is_plain_key) keys ∙ is_plain_key-all (question_options ir.nodes))
                  ∙ plain,
              ls,
              done,
            )
            | inr (q, o, m, bad, raised) ↦ inr (
              q,
              o,
              labelled_option-In (question_options ir.nodes)
                  (subst (In (labelled_option (q, o))) keys m),
              bad,
              raised,
            )
          ]

    -- If digests are hexadecimal, then on a valid Ir, once the answers are accepted, their facts are
    -- built and the assumptions are valid, the evaluation returns a verdict exactly if every option of
    -- its questions is plain, whatever the solver answers. An option is plain if what its symbol keeps
    -- of the question's id and of the label is made of ASCII letters, digits and underscores.
    pub evaluate_reasoning_returns :
        (check : List Formula → CheckResult) (raw : RawAnswers) (skip : Bool)
        (phi : ReasoningAssumptions) (facts : List CanonicalFactRecord)
        → validate_raw_answers_for_ir ir raw ≡ ok tt
        → raw_answers_to_canonical_facts ir raw ≡ ok facts
        → validate_assumptions ir phi ≡ ok tt
        → ((r : EvaluationResult) × (evaluate_reasoning p check ir raw skip phi ≡ ok r))
          ↔ HasPlainOptions p ir
    unfolding evaluate_reasoning evaluate_with_canonical_facts lift or_key_error
    evaluate_reasoning_returns check raw skip phi facts a b c =
        let valid : is_valid ir ≡ true = (is_valid_iff ir).1 v in
        let accepted : (not skip && not (is_valid ir)) ≡ false = ground arith in
        let (fs, d) = compile_ir_to_z3_total p ir v in
        elim (raw_facts_mappable raw facts b) [
          | inl (plain, ls, e) ↦ ((λ _. plain), (λ _. rw (accepted, a, b, c, d, e) (_, refl)))
          | inr (q, o, m, bad, e) ↦ (
            (λ (r, done). absurd (cc (rw (accepted, a, b, c, d, e) at done))),
            (λ plain. absurd (cc (all→In (is_plain_option p) plain m, bad))),
          )
        ]
