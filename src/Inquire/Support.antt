-- ===== src/Inquire/Support.antt =====
-- smeme/reasoning/runtime/inquire/support.py: the least answers that resolve a resolved base. The
-- greedy loop has a fuel of one step for each answer, and one more.
use smeme.Base.{
  ℕ, zero, suc, Text, ◌==◌, text_leb, sort, leb, not, ◌&&◌, length, Bool, false, if◌then◌else◌,
  Option, none, some, List, [], ◌∷◌, ◌++◌, map, keep, find, flat, all,
}
use smeme.Base.Result.{Result, ok, err, raise_if, ◌>>◌}
use smeme.Ir.Types.{Ir, IrNode, question, conclusion}
use smeme.Theory.Formula.{Formula, atom, neg, or_all}
use smeme.Theory.Symbols.{Platform, reach_symbol}
use smeme.Runtime.Evaluate.{CheckResult}
use smeme.Runtime.Gate.{
  Run, Status, stopped, unknown_status, QueryError, not_a_part, WorkingBase, and_then, answer, ends,
  result, resolve_facts, within_budget, literals_of, pushed_assumptions, call,
}
use smeme.Inquire.Types.{Evidence}
use smeme.Inquire.Budget.{hard_max_inquire_timeout_ms, hard_max_resolving_support_sat_calls}
use smeme.Inquire.Space.{with_admitted}
use smeme.Inquire.Resolvable.{combinations, range_from}

pub data SupportError : Type 0 where
  query_error : QueryError → SupportError
  bad_max_sat_calls bad_timeout : SupportError

unfoldable pub get_answer : Text → Evidence → Option Text
get_answer q evidence = elim (find (λ (k, _). k == q) evidence) [
  | none ↦ none
  | some (_, a) ↦ some a
]

unfoldable pub same_answer : Option Text → Text → Bool
same_answer none a = false
same_answer (some b) a = b == a

unfoldable pub is_part : Evidence → Evidence → Bool
unfolding get_answer same_answer
is_part candidate admitted = all (λ (q, a). same_answer (get_answer q admitted) a) candidate

unfoldable pub assert_literal_subconjunction : Evidence → Evidence → Result QueryError Unit
unfolding is_part
assert_literal_subconjunction candidate admitted =
    raise_if (not (is_part candidate admitted)) not_a_part

-- The items of a dict in the order of their keys.
unfoldable pub sorted_items : Evidence → Evidence
sorted_items = sort (λ (q, _) (r, _). text_leb q r)

unfoldable pub alternatives : Platform → Ir → Text → List Formula
alternatives p ir target =
    map (λ (n : IrNode). atom (reach_symbol p n.id))
      (keep (λ (n : IrNode). elim n.kind [ conclusion ↦ not (n.id == target) | question ↦ false ])
        ir.nodes)

-- What the solver is asked: the base with a candidate, and the target missed or another one reached.
unfoldable pub refutation : Platform → WorkingBase → Text → List Formula → List Formula
unfolding pushed_assumptions alternatives
refutation p base target literals =
    (base.theory ++ (literals ++ pushed_assumptions p base.assumptions))
    ++ or_all (neg (atom (reach_symbol p target))) (alternatives p base.ir target) ∷ []

unfoldable pub support_base : WorkingBase → ℕ → ℕ → WorkingBase
support_base base max_sat_calls timeout_ms = record {
  ir = base.ir;
  theory = base.theory;
  admitted = base.admitted;
  assumptions = base.assumptions;
  max_sat_calls = max_sat_calls;
  timeout_ms = timeout_ms;
  sat_t_established = base.sat_t_established;
}

unfoldable pub or_query_error : {A : Type 0} → Result QueryError A → Result SupportError A
or_query_error (ok a) = ok a
or_query_error (err e) = err (query_error e)

module _ (p : Platform) (check : ℕ → ℕ → List Formula → CheckResult) where
  -- `_resolved_same_c`, of which a hit is true: no model of the candidate misses the conclusion or
  -- reaches another one.
  unfoldable pub resolved_same_c : WorkingBase → Text → Evidence → Run Bool
  unfolding and_then assert_literal_subconjunction within_budget resolve_facts with_admitted
      literals_of call refutation
  resolved_same_c base target candidate =
      and_then (result (assert_literal_subconjunction candidate base.admitted)) (λ _.
        and_then (within_budget base) (λ _.
          and_then (result (resolve_facts (with_admitted base candidate))) (λ facts.
            and_then (result (literals_of p base facts)) (λ literals.
              and_then (call p check base (refutation p base target literals))
                (λ found. answer (not found))))))

  -- The first answer, in the order of the keys, that can go.
  unfoldable pub drop_one : WorkingBase → Text → Evidence → List Text → Run (Option Evidence)
  unfolding and_then resolved_same_c
  drop_one base target current [] = answer none
  drop_one base target current (q ∷ qs) =
      and_then (resolved_same_c base target (keep (λ (k, _). not (k == q)) current)) (λ hit.
        if hit
        then answer (some (keep (λ (k, _). not (k == q)) current))
        else drop_one base target current qs)

  -- The loop `while progress`.
  unfoldable pub greedy_loop : WorkingBase → Text → ℕ → Evidence → Run Evidence
  unfolding and_then drop_one
  greedy_loop base target zero current = answer current
  greedy_loop base target (suc fuel) current =
      and_then (drop_one base target current (sort text_leb (map (λ (k, _). k) current)))
        (λ smaller. elim smaller [
          | none ↦ answer current
          | some next ↦ greedy_loop base target fuel next
        ])

  unfoldable pub greedy_upper_bound : WorkingBase → Text → Run Evidence
  unfolding and_then greedy_loop sorted_items
  greedy_upper_bound base target =
      and_then (greedy_loop base target (suc (length base.admitted)) base.admitted)
        (λ current. answer (sorted_items current))

  -- The first candidate that resolves to the conclusion.
  unfoldable pub first_hit : WorkingBase → Text → List Evidence → Run Evidence
  unfolding and_then resolved_same_c
  first_hit base target [] = ends (stopped unknown_status)
  first_hit base target (candidate ∷ rest) =
      and_then (resolved_same_c base target candidate)
        (λ hit. if hit then answer (sorted_items candidate) else first_hit base target rest)

  unfoldable pub search_support : WorkingBase → Text → Run Evidence
  unfolding and_then greedy_upper_bound combinations range_from first_hit sorted_items
  search_support base target = and_then (greedy_upper_bound base target) (λ greedy.
      first_hit base target (
        flat (λ k. combinations k (sorted_items base.admitted))
          (range_from 0 (suc (length greedy)))))

  -- It counts its calls of the solver from 0, against limits of its own.
  unfoldable pub resolving_support :
      WorkingBase → Text → ℕ → ℕ → Result SupportError (Status Evidence × ℕ)
  unfolding search_support support_base or_query_error
  resolving_support base target max_sat_calls timeout_ms = do
    raise_if (not (leb 1 max_sat_calls && leb max_sat_calls hard_max_resolving_support_sat_calls))
        bad_max_sat_calls
    raise_if (not (leb 1 timeout_ms && leb timeout_ms hard_max_inquire_timeout_ms)) bad_timeout
    or_query_error (search_support (support_base base max_sat_calls timeout_ms) target 0)
