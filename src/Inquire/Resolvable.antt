-- ===== src/Inquire/Resolvable.antt =====
-- smeme/reasoning/runtime/inquire/resolvable.py: the search for answers to several questions that
-- together resolve the base.
use smeme.Base.{
  ℕ, zero, suc, ◌-◌, Text, text_leb, leb, length, Bool, false, if◌then◌else◌, Option, none, some,
  List, [], ◌∷◌, ◌++◌, map, flat,
}
use smeme.Base.Result.{Result, ok, ◌>>=◌}
use smeme.Theory.Formula.{Formula}
use smeme.Theory.Symbols.{Platform}
use smeme.Runtime.Evaluate.{CheckResult}
use smeme.Runtime.Gate.{
  Run, Status, answered, inconsistent, stopped, Operational, budget, QueryError, WorkingBase,
  and_then, answer,
}
use smeme.Inquire.Types.{Evidence}
use smeme.Inquire.Budget.{InquiryBudget}
use smeme.Inquire.Transition.{set_answer}
use smeme.Inquire.Space.{with_admitted, unanswered_questions, resolved_conclusion}
use smeme.Inquire.Discriminators.{options_for}

pub data Witness : Type 0 where
  acquire : Text → Witness
  not_resolvable : Witness
  budget_miss : Operational → Witness

-- `itertools.combinations(xs, k)`
unfoldable pub combinations : {A : Type 0} → ℕ → List A → List (List A)
combinations zero xs = [] ∷ []
combinations (suc k) [] = []
combinations (suc k) (x ∷ xs) = map (λ c. x ∷ c) (combinations k xs) ++ combinations (suc k) xs

-- The dicts `dict(zip(d_tuple, assignment))` for the assignments of `itertools.product`.
unfoldable pub assignments : (Text → List Text) → List Text → List Evidence
assignments options [] = [] ∷ []
assignments options (q ∷ qs) =
    flat (λ a. map (λ rest. (q, a) ∷ rest) (assignments options qs)) (options q)

-- The numbers of `range(first, first + n)`
unfoldable pub range_from : ℕ → ℕ → List ℕ
range_from first zero = []
range_from first (suc n) = first ∷ range_from (suc first) n

-- `{**admitted, **alpha}`
unfoldable pub update_answers : Evidence → Evidence → Evidence
unfolding set_answer
update_answers admitted [] = admitted
update_answers admitted ((q, a) ∷ alpha) = update_answers (set_answer q a admitted) alpha

-- `min(d_tuple)` of the questions of an assignment.
unfoldable pub least : Text → List Text → Text
least q [] = q
least q (r ∷ rs) = least (if text_leb q r then q else r) rs

unfoldable pub least_question : Evidence → Text
unfolding least
least_question [] = []
least_question ((q, _) ∷ alpha) = least q (map (λ (k, _). k) alpha)

-- The assignments in the order of the three loops: from two questions on, to all that remain.
unfoldable pub candidates : (Text → List Text) → List Text → List Evidence
unfolding combinations assignments range_from
candidates options remaining =
    flat (λ width. flat (assignments options) (combinations width remaining))
      (range_from 2 (length remaining - 1))

unfoldable pub residual_exhausted : InquiryBudget → ℕ → ℕ → Bool
residual_exhausted limits start n = elim limits.max_residual_sat_calls [
  | none ↦ false
  | some most ↦ leb most (n - start)
]

module _ (p : Platform) (check : ℕ → ℕ → List Formula → CheckResult) where
  -- What one assignment leads to: an answer ends the search, none goes on.
  unfoldable pub weigh :
      Text → Status (Option Text) × ℕ → Result QueryError (Status (Option Witness) × ℕ)
  weigh q (stopped o, k) = ok (answered (some (budget_miss o)), k)
  weigh q (answered (some _), k) = ok (answered (some (acquire q)), k)
  weigh q (answered none, k) = ok (answered none, k)
  weigh q (inconsistent _, k) = ok (answered none, k)

  unfoldable pub try_assignment : WorkingBase → Evidence → Run (Option Witness)
  unfolding weigh resolved_conclusion with_admitted update_answers least_question
  try_assignment base alpha n =
      resolved_conclusion p check (with_admitted base (update_answers base.admitted alpha)) n
      >>= weigh (least_question alpha)

  unfoldable pub search : WorkingBase → InquiryBudget → ℕ → List Evidence → Run Witness
  unfolding and_then residual_exhausted try_assignment
  search base limits start [] n = ok (answered not_resolvable, n)
  search base limits start (alpha ∷ rest) n =
      if residual_exhausted limits start n
      then ok (answered (budget_miss budget), n)
      else and_then (try_assignment base alpha)
          (λ found. elim found [ some w ↦ answer w | none ↦ search base limits start rest ]) n

  unfoldable pub search_from : WorkingBase → InquiryBudget → List Text → Run Witness
  unfolding search candidates options_for
  search_from base limits [] n = ok (answered not_resolvable, n)
  search_from base limits (q ∷ qs) n = elim limits.max_residual_sat_calls [
    | some zero ↦ ok (answered (budget_miss budget), n)
    | _ ↦ search base limits n (candidates (options_for base.ir) (q ∷ qs)) n
  ]

  unfoldable pub search_resolving_witness : WorkingBase → InquiryBudget → Run Witness
  unfolding search_from unanswered_questions
  search_resolving_witness base limits =
      search_from base limits (unanswered_questions base.ir base.admitted)
