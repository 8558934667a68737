-- ===== src/Inquire/Discriminators.antt =====
-- smeme/reasoning/runtime/inquire/discriminators.py: the questions that tell conclusions apart alone.
use smeme.Base.{
  ℕ, Text, ◌==◌, ltb, length, not, any, all, mem, ◌&&◌, Bool, false, if◌then◌else◌, none, some,
  List, [], ◌∷◌,
}
use smeme.Base.Result.{Result, ok, ◌>>=◌}
use smeme.Ir.Types.{Ir, IrNode}
use smeme.Theory.Formula.{Formula}
use smeme.Theory.Symbols.{Platform}
use smeme.Runtime.Evaluate.{CheckResult}
use smeme.Runtime.Gate.{
  Run, Status, answered, inconsistent, stopped, QueryError, WorkingBase, and_then, answer,
}
use smeme.Inquire.Transition.{set_answer}
use smeme.Inquire.Space.{with_admitted, unanswered_questions, possible_conclusions, collect}

-- The options of the first node with the id that has a question.
unfoldable pub options_in : List IrNode → Text → List Text
options_in [] qid = []
options_in (n ∷ ns) qid = elim n.question [
  | none ↦ options_in ns qid
  | some q ↦ if n.id == qid then q.options else options_in ns qid
]

-- `_options_for`
unfoldable pub options_for : Ir → Text → List Text
unfolding options_in
options_for ir qid = options_in ir.nodes qid

-- An inconsistent base has no possible conclusion.
unfoldable pub empty_if_inconsistent :
    Status (List Text) × ℕ → Result QueryError (Status (List Text) × ℕ)
empty_if_inconsistent (inconsistent _, k) = ok (answered [], k)
empty_if_inconsistent (answered cs, k) = ok (answered cs, k)
empty_if_inconsistent (stopped o, k) = ok (stopped o, k)

unfoldable pub or_none_possible : Run (List Text) → Run (List Text)
unfolding empty_if_inconsistent
or_none_possible run n = run n >>= empty_if_inconsistent

-- `!=` of two frozensets
unfoldable pub differ : List Text → List Text → Bool
differ xs ys = not (all (λ x. mem x ys) xs && all (λ y. mem y xs) ys)

-- `any(s != sets[0] for s in sets[1:])`
unfoldable pub tells_apart : List (List Text) → Bool
unfolding differ
tells_apart [] = false
tells_apart (first ∷ rest) = any (λ s. differ s first) rest

module _ (p : Platform) (check : ℕ → ℕ → List Formula → CheckResult) where
  -- The possible conclusions for each option of a question.
  unfoldable pub sets_for : WorkingBase → Text → List Text → Run (List (List Text))
  unfolding and_then or_none_possible possible_conclusions with_admitted set_answer
  sets_for base qid [] = answer []
  sets_for base qid (opt ∷ opts) =
      and_then
        (or_none_possible
          (possible_conclusions p check (with_admitted base (set_answer qid opt base.admitted))))
        (λ here. and_then (sets_for base qid opts) (λ rest. answer (here ∷ rest)))

  unfoldable pub discriminates : WorkingBase → Text → Run Bool
  unfolding and_then sets_for tells_apart options_for
  discriminates base qid =
      if ltb (length (options_for base.ir qid)) 2
      then answer false
      else and_then (sets_for base qid (options_for base.ir qid))
          (λ sets. answer (tells_apart sets))

  unfoldable pub myopic_discriminators : WorkingBase → Run (List Text)
  unfolding collect discriminates unanswered_questions
  myopic_discriminators base =
      collect (discriminates base) (unanswered_questions base.ir base.admitted)
