-- ===== src/Inquire/Transition/Projection.antt =====
-- About `logical_evidence` of smeme/reasoning/runtime/inquire/types.py and the dicts of answers.
use smeme.Base.{
  or-cases, Bool-cases, Text, ◌==◌, ==→eq, eq_refl, mem, Distinct, ◌≡◌, refl, true, false, List, [],
  ◌∷◌, map, In, head, tail, arith, inl, inr, subst, sym,
}
use smeme.Base.Result.{ok, >>-eq-ok, >>=-eq-ok}
use smeme.Ir.Types.{Ir}
use smeme.Runtime.Input.{
  Answer, RawAnswers, validate_answer, validate_each, validate_raw_answers_for_ir,
}
use smeme.Inquire.Types.{AdmittedAssertion, Evidence, evidence_from, logical_evidence}
use smeme.Inquire.Transition.{set_answer, has_answer}

abbrev pub questions : List AdmittedAssertion → List Text
questions = map (λ (a : AdmittedAssertion). a.question_id)

abbrev pub pairs : List AdmittedAssertion → Evidence
pairs = map (λ (a : AdmittedAssertion). (a.question_id, a.option))

evidence_from-pairs :
    (seen : List Text) (xs : List AdmittedAssertion)
    → Distinct (questions xs)
    → ((q : Text) → mem q seen ≡ true → mem q (questions xs) ≡ false)
    → evidence_from seen xs ≡ ok (pairs xs)
unfolding evidence_from
evidence_from-pairs seen [] d h = refl
evidence_from-pairs seen (x ∷ xs) d h = elim (Bool-cases (mem x.question_id seen)) [
  | inl m ↦ absurd (cc (h x.question_id m, eq_refl x.question_id))
  | inr fresh ↦
      rw
        (
          fresh,
          evidence_from-pairs (x.question_id ∷ seen) xs d.1 (λ q m.
              elim (or-cases (x.question_id == q) (mem q seen) m) [
                | inl e ↦ subst (λ y. mem y (questions xs) ≡ false) (==→eq x.question_id q e) d.0
                | inr old ↦ ground (arith, h q old)
              ]),
        )
        refl
]

-- With distinct questions the projection does not raise.
pub logical_evidence-pairs :
    (xs : List AdmittedAssertion) → Distinct (questions xs) → logical_evidence xs ≡ ok (pairs xs)
unfolding logical_evidence
logical_evidence-pairs xs d = evidence_from-pairs [] xs d (λ q m. absurd (cc))

pub has_answer-pairs :
    (q : Text) (xs : List AdmittedAssertion) → has_answer q (pairs xs) ≡ mem q (questions xs)
has_answer-pairs q [] = refl
has_answer-pairs q (x ∷ xs) = rw (has_answer-pairs q xs) refl

pub In-set_answer : (q a : Text) (ev : Evidence) → In (q, a) (set_answer q a ev)
unfolding set_answer
In-set_answer q a [] = head
In-set_answer q a ((k, b) ∷ rest) = elim (Bool-cases (k == q)) [
  | inl e ↦ rw e (subst (λ j. In (q, a) ((j, a) ∷ rest)) (sym (==→eq k q e)) head)
  | inr e ↦ rw e (tail (In-set_answer q a rest))
]

-- A dict of answers is accepted only if each of its answers is.
validate_each-In :
    (ir : Ir) (raw : RawAnswers) {q : Text} {v : Answer}
    → validate_each ir raw ≡ ok tt
    → In (q, v) raw
    → validate_answer ir q v ≡ ok tt
unfolding validate_each
validate_each-In ir [] h m = elim m [ ]
validate_each-In ir ((k, w) ∷ rest) h head =
    let (_, e, _) = >>=-eq-ok (validate_answer ir k w) _ h in e
validate_each-In ir ((k, w) ∷ rest) h (tail m) =
    let (_, _, e) = >>=-eq-ok (validate_answer ir k w) _ h in validate_each-In ir rest e m

pub validate_raw_answers-In :
    (ir : Ir) (raw : RawAnswers) {q : Text} {v : Answer}
    → validate_raw_answers_for_ir ir raw ≡ ok tt
    → In (q, v) raw
    → validate_answer ir q v ≡ ok tt
unfolding validate_raw_answers_for_ir
validate_raw_answers-In ir raw h m = validate_each-In ir raw (>>-eq-ok _ _ _ h).1 m
