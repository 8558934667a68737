-- ===== src/Inquire/Analyze/Limits.antt =====
-- The number of calls of the solver in `analyze_inquiry` of smeme/reasoning/runtime/inquire/analyze.py
-- and in the searches that it starts.
use smeme.Base.{
  flat, ℕ, zero, suc, ◌≤◌, Text, ◌==◌, ltb, length, not, Bool, true, false, if◌then◌else◌, ◌≡◌, ap,
  Option, none, some, List, [], ◌∷◌, map, keep, inl, inr, Bool-cases, arith, text_leb, sort,
}
use smeme.Base.Result.{Result, ok, ◌>>=◌, >>=-eq-ok, ok_injective}
use smeme.Theory.Formula.{Formula}
use smeme.Theory.Symbols.{Platform}
use smeme.Runtime.Evaluate.{CheckResult}
use smeme.Runtime.Gate.{
  Status, answered, inconsistent, stopped, budget, QueryError, Run, WorkingBase, answer, result,
  resolve_facts, literals_of, call, unknown_status,
}
use smeme.Runtime.Gate.Limits.{
  IsFrugal, ends-IsFrugal, and_then-IsFrugal, result-IsFrugal, result-IsReady, within-IsFrugal,
  call-IsReady, and_then-IsReady,
}
use smeme.Inquire.Types.{Evidence}
use smeme.Inquire.Budget.{InquiryBudget}
use smeme.Inquire.Space.{
  with_admitted, possible_conclusions, resolved_conclusion, unanswered_questions,
}
use smeme.Inquire.Space.Limits.{
  collect-IsFrugal, possible_conclusions-IsFrugal, resolved_conclusion-IsFrugal,
}
use smeme.Inquire.Transition.{set_answer}
use smeme.Inquire.Discriminators.{
  empty_if_inconsistent, or_none_possible, sets_for, discriminates, tells_apart, options_for,
  myopic_discriminators,
}
use smeme.Inquire.Resolvable.{
  combinations, range_from, Witness, not_resolvable, budget_miss, weigh, try_assignment, search,
  search_from, search_resolving_witness, residual_exhausted, update_answers, least_question,
  candidates,
}
use smeme.Inquire.Support.{
  resolved_same_c, drop_one, greedy_loop, greedy_upper_bound, first_hit, search_support,
  assert_literal_subconjunction, refutation, sorted_items,
}

module _ (p : Platform) (check : ℕ → ℕ → List Formula → CheckResult) (base : WorkingBase) where
  -- What goes on from any status without a call keeps the count.
  abbrev Keeps : {A B : Type 0} → (Status A × ℕ → Result QueryError (Status B × ℕ)) → Type 0
  Keeps {A} {B} next =
      (t : Status A) (j : ℕ) (s : Status B) (k : ℕ) → next (t, j) ≡ ok (s, k) → j ≡ k

  bind-IsFrugal :
      {A B : Type 0} (run : Run A) (next : Status A × ℕ → Result QueryError (Status B × ℕ))
      → IsFrugal base run
      → Keeps next
      → IsFrugal base (λ n. run n >>= next)
  bind-IsFrugal run next f keeps n s k h r =
      let ((t, j), a, b) = >>=-eq-ok (run n) next r in
      let same = keeps t j s k b in let (x, y) = f n t j h a in (omega arith, omega arith)

  none_possible-Keeps : Keeps empty_if_inconsistent
  unfolding empty_if_inconsistent
  none_possible-Keeps (inconsistent _) j s k e = ap (λ x. x.1) (ok_injective e)
  none_possible-Keeps (answered _) j s k e = ap (λ x. x.1) (ok_injective e)
  none_possible-Keeps (stopped _) j s k e = ap (λ x. x.1) (ok_injective e)

  sets_for-IsFrugal :
      (qid : Text) (opts : List Text) → IsFrugal base (sets_for p check base qid opts)
  unfolding sets_for or_none_possible with_admitted
  sets_for-IsFrugal qid [] = ends-IsFrugal base (answered [])
  sets_for-IsFrugal qid (opt ∷ opts) =
      and_then-IsFrugal base
        (or_none_possible
          (possible_conclusions p check (with_admitted base (set_answer qid opt base.admitted))))
        _
        (bind-IsFrugal
          (possible_conclusions p check (with_admitted base (set_answer qid opt base.admitted)))
          empty_if_inconsistent
          (possible_conclusions-IsFrugal p check
            (with_admitted base (set_answer qid opt base.admitted)))
          none_possible-Keeps)
        (λ here.
          and_then-IsFrugal base (sets_for p check base qid opts) _ (sets_for-IsFrugal qid opts)
            (λ rest. ends-IsFrugal base (answered (here ∷ rest))))

  discriminates-IsFrugal : (qid : Text) → IsFrugal base (discriminates p check base qid)
  unfolding discriminates
  discriminates-IsFrugal qid = elim (Bool-cases (ltb (length (options_for base.ir qid)) 2)) [
    | inl e ↦ rw e (ends-IsFrugal base (answered false))
    | inr e ↦ rw e (
        and_then-IsFrugal base (sets_for p check base qid (options_for base.ir qid)) _
          (sets_for-IsFrugal qid (options_for base.ir qid))
          (λ sets. ends-IsFrugal base (answered (tells_apart sets))))
  ]

  pub myopic_discriminators-IsFrugal : IsFrugal base (myopic_discriminators p check base)
  unfolding myopic_discriminators
  myopic_discriminators-IsFrugal =
      collect-IsFrugal base (discriminates p check base)
        (unanswered_questions base.ir base.admitted) discriminates-IsFrugal

  weigh-Keeps : (q : Text) → Keeps (weigh p check q)
  unfolding weigh
  weigh-Keeps q (stopped o) j s k e = ap (λ x. x.1) (ok_injective e)
  weigh-Keeps q (answered (some _)) j s k e = ap (λ x. x.1) (ok_injective e)
  weigh-Keeps q (answered none) j s k e = ap (λ x. x.1) (ok_injective e)
  weigh-Keeps q (inconsistent _) j s k e = ap (λ x. x.1) (ok_injective e)

  try_assignment-IsFrugal : (alpha : Evidence) → IsFrugal base (try_assignment p check base alpha)
  unfolding try_assignment with_admitted
  try_assignment-IsFrugal alpha =
      bind-IsFrugal
        (resolved_conclusion p check (with_admitted base (update_answers base.admitted alpha)))
        (weigh p check (least_question alpha))
        (resolved_conclusion-IsFrugal p check
          (with_admitted base (update_answers base.admitted alpha)))
        (weigh-Keeps (least_question alpha))

  search-IsFrugal :
      (limits : InquiryBudget) (start : ℕ) (cs : List Evidence)
      → IsFrugal base (search p check base limits start cs)
  unfolding search
  search-IsFrugal limits start [] n s k h r = ends-IsFrugal base (answered not_resolvable) n s k h r
  search-IsFrugal limits start (alpha ∷ rest) n s k h r =
      elim (Bool-cases (residual_exhausted limits start n)) [
        | inl e ↦ let same = ap (λ x. x.1) (ok_injective (rw e at r)) in (omega arith, omega arith)
        | inr e ↦
            and_then-IsFrugal base (try_assignment p check base alpha) decided
              (try_assignment-IsFrugal alpha) (decided_lem (search-IsFrugal limits start rest)) n s
              k h (rw e at r)
      ]
    where
      decided : Option Witness → Run Witness
      decided found = elim found [
        | some w ↦ answer w
        | none ↦ search p check base limits start rest
      ]

      decided_lem :
          IsFrugal base (search p check base limits start rest)
          → (found : Option Witness) → IsFrugal base (decided found)
      decided_lem ih none = ih
      decided_lem ih (some w) = ends-IsFrugal base (answered w)

  pub search_resolving_witness-IsFrugal :
      (limits : InquiryBudget) → IsFrugal base (search_resolving_witness p check base limits)
  unfolding search_resolving_witness search_from
  search_resolving_witness-IsFrugal limits =
      from_remaining (unanswered_questions base.ir base.admitted)
    where
      from_limit :
          (most : Option ℕ) (q : Text) (qs : List Text) (n : ℕ) (s : Status Witness) (k : ℕ)
          → n ≤ base.max_sat_calls
          → (elim most [
            | some zero ↦ ok (answered (budget_miss budget), n)
            | _ ↦ search p check base limits n (candidates (options_for base.ir) (q ∷ qs)) n
          ])
            ≡ ok (s, k)
          → (n ≤ k) × (k ≤ base.max_sat_calls)
      from_limit none q qs n s k h r =
          search-IsFrugal limits n (candidates (options_for base.ir) (q ∷ qs)) n s k h r
      from_limit (some zero) q qs n s k h r =
          let same = ap (λ x. x.1) (ok_injective r) in (omega arith, omega arith)
      from_limit (some (suc most)) q qs n s k h r =
          search-IsFrugal limits n (candidates (options_for base.ir) (q ∷ qs)) n s k h r

      from_remaining :
          (remaining : List Text) → IsFrugal base (search_from p check base limits remaining)
      from_remaining [] n s k h r = ends-IsFrugal base (answered not_resolvable) n s k h r
      from_remaining (q ∷ qs) n s k h r = from_limit limits.max_residual_sat_calls q qs n s k h r

  resolved_same_c-IsFrugal :
      (target : Text) (candidate : Evidence)
      → IsFrugal base (resolved_same_c p check base target candidate)
  unfolding resolved_same_c
  resolved_same_c-IsFrugal target candidate =
      and_then-IsFrugal base (result (assert_literal_subconjunction candidate base.admitted)) _
        (result-IsFrugal base _)
        (λ _. within-IsFrugal base _ (
          result-IsReady base (resolve_facts (with_admitted base candidate)) _ (λ facts.
            result-IsReady base (literals_of p base facts) _ (λ literals.
              and_then-IsReady base (call p check base (refutation p base target literals)) _
                (call-IsReady p check base (refutation p base target literals))
                (λ found. ends-IsFrugal base (answered (not found)))))))

  drop_one-IsFrugal :
      (target : Text) (current : Evidence) (qs : List Text)
      → IsFrugal base (drop_one p check base target current qs)
  unfolding drop_one
  drop_one-IsFrugal target current [] = ends-IsFrugal base (answered none)
  drop_one-IsFrugal target current (q ∷ qs) =
      and_then-IsFrugal base (resolved_same_c p check base target smaller) decided
        (resolved_same_c-IsFrugal target smaller)
        (decided_lem (drop_one-IsFrugal target current qs))
    where
      smaller : Evidence
      smaller = keep (λ (k, _). not (k == q)) current

      decided : Bool → Run (Option Evidence)
      decided hit = if hit then answer (some smaller) else drop_one p check base target current qs

      decided_lem :
          IsFrugal base (drop_one p check base target current qs)
          → (hit : Bool) → IsFrugal base (decided hit)
      decided_lem ih true = ends-IsFrugal base (answered (some smaller))
      decided_lem ih false = ih

  greedy_loop-IsFrugal :
      (target : Text) (fuel : ℕ) (current : Evidence)
      → IsFrugal base (greedy_loop p check base target fuel current)
  unfolding greedy_loop
  greedy_loop-IsFrugal target zero current = ends-IsFrugal base (answered current)
  greedy_loop-IsFrugal target (suc fuel) current =
      and_then-IsFrugal base (drop_one p check base target current keys) decided
        (drop_one-IsFrugal target current keys)
        (decided_lem (λ e. greedy_loop-IsFrugal target fuel e))
    where
      keys : List Text
      keys = sort text_leb (map (λ (k, _). k) current)

      decided : Option Evidence → Run Evidence
      decided smaller = elim smaller [
        | none ↦ answer current
        | some next ↦ greedy_loop p check base target fuel next
      ]

      decided_lem :
          ((e : Evidence) → IsFrugal base (greedy_loop p check base target fuel e))
          → (o : Option Evidence) → IsFrugal base (decided o)
      decided_lem ih none = ends-IsFrugal base (answered current)
      decided_lem ih (some next) = ih next

  first_hit-IsFrugal :
      (target : Text) (cs : List Evidence) → IsFrugal base (first_hit p check base target cs)
  unfolding first_hit
  first_hit-IsFrugal target [] = ends-IsFrugal base (stopped unknown_status)
  first_hit-IsFrugal target (c ∷ cs) =
      and_then-IsFrugal base (resolved_same_c p check base target c) decided
        (resolved_same_c-IsFrugal target c) (decided_lem (first_hit-IsFrugal target cs))
    where
      decided : Bool → Run Evidence
      decided hit = if hit then answer (sorted_items c) else first_hit p check base target cs

      decided_lem :
          IsFrugal base (first_hit p check base target cs)
          → (hit : Bool) → IsFrugal base (decided hit)
      decided_lem ih true = ends-IsFrugal base (answered (sorted_items c))
      decided_lem ih false = ih

  pub search_support-IsFrugal : (target : Text) → IsFrugal base (search_support p check base target)
  unfolding search_support greedy_upper_bound
  search_support-IsFrugal target =
      and_then-IsFrugal base (greedy_upper_bound p check base target) _
        (and_then-IsFrugal base
          (greedy_loop p check base target (suc (length base.admitted)) base.admitted) _
          (greedy_loop-IsFrugal target (suc (length base.admitted)) base.admitted)
          (λ current. ends-IsFrugal base (answered (sorted_items current))))
        (λ greedy. first_hit-IsFrugal target (
          flat (λ k. combinations k (sorted_items base.admitted))
            (range_from 0 (suc (length greedy)))))
