-- ===== src/Runtime/Gate.antt =====
-- smeme/reasoning/runtime/consistency_gate.py, and `entails_target` and `possible_target` of
-- smeme/reasoning/runtime/counterfactual.py, for facts that come from answers (`facts=None`).
--
-- A query runs from the number of calls of the solver so far, the list `sat_calls`, to that number
-- after it. It raises, or has a status: `answered`, `inconsistent` with its cause, or `stopped` for one
-- of the operational reasons. A call of the solver is the parameter `check`, which may read the timeout
-- and the number of calls so far; what is pushed is popped, so the assertions are passed to it.
-- The tests that a counter is over its limit after one more call cannot hold and are left out.
pub mod Absent
pub mod Limits
pub mod Meaning
pub mod Models
use smeme.Base.{
  ℕ, suc, Text, mem, is_nil, Bool, true, false, not, leb, if◌then◌else◌, List, [], ◌∷◌, ◌++◌, map,
}
use smeme.Base.Result.{Result, ok, err, ◌>>=◌}
use smeme.Ir.Types.{Ir, IrNode}
use smeme.Theory.Formula.{Formula, atom, neg}
use smeme.Theory.Symbols.{Platform, reach_symbol}
use smeme.Runtime.Input.{Answer, text, RawAnswers}
use smeme.Runtime.Facts.{
  CanonicalFactRecord, FactError, raw_answers_to_canonical_facts, apply_canonical_facts_to_solver,
}
use smeme.Runtime.Assumptions.{ReasoningAssumptions, is_empty, assumption_literals}
use smeme.Runtime.Evaluate.{CheckResult, sat, unsat, unknown}

pub data Cause : Type 0 where
  answers_inconsistent assumptions_inconsistent : Cause

pub data Operational : Type 0 where
  budget timeout unknown_status : Operational

pub data Status (A : Type 0) : Type 0 where
  answered : A → Status A
  inconsistent : Cause → Status A
  stopped : Operational → Status A

pub data QueryError : Type 0 where
  facts_error : FactError → QueryError
  invalid_target : Text → QueryError
  -- `SAT(T) failed for in-process / recomputed theory`
  theory_unsat : QueryError
  -- the candidate of a support is no part of the evidence
  not_a_part : QueryError

abbrev pub Run : Type 0 → Type 0
Run A = ℕ → Result QueryError (Status A × ℕ)

-- Compiled theory, current evidence and assumptions, and limits: `WorkingBase` of
-- smeme/reasoning/runtime/inquire/space.py, and what the gate is called with.
pub record WorkingBase : Type 0 where
  pub ir : Ir
  pub theory : List Formula
  pub admitted : List (Text × Text)
  pub assumptions : ReasoningAssumptions
  pub max_sat_calls : ℕ
  pub timeout_ms : ℕ
  pub sat_t_established : Bool

abbrev pub after : {A B : Type 0} → (A → Run B) → Status A × ℕ → Result QueryError (Status B × ℕ)
after next (answered a, n) = next a n
after next (inconsistent c, n) = ok (inconsistent c, n)
after next (stopped o, n) = ok (stopped o, n)

-- A status that is no answer ends the query.
unfoldable pub and_then : {A B : Type 0} → Run A → (A → Run B) → Run B
and_then first next n = first n >>= after next

abbrev pub answer : {A : Type 0} → A → Run A
answer a n = ok (answered a, n)

abbrev pub ends : {A : Type 0} → Status A → Run A
ends s n = ok (s, n)

abbrev pub raises : {A : Type 0} → QueryError → Run A
raises e n = err e

abbrev pub result : {A : Type 0} → Result QueryError A → Run A
result (ok a) n = ok (answered a, n)
result (err e) n = err e

unfoldable pub or_facts_error : {A : Type 0} → Result FactError A → Result QueryError A
or_facts_error (ok a) = ok a
or_facts_error (err e) = err (facts_error e)

unfoldable pub resolve_facts : WorkingBase → Result QueryError (List CanonicalFactRecord)
unfolding or_facts_error
resolve_facts base =
    or_facts_error
      (raw_answers_to_canonical_facts base.ir (map (λ (q, a). (q, text a)) base.admitted))

unfoldable pub within_budget : WorkingBase → Run Unit
within_budget base n = ok (if leb base.max_sat_calls n then stopped budget else answered tt, n)

unfoldable pub validate_reach_target : WorkingBase → Text → Result QueryError Unit
validate_reach_target base c =
    if mem c (map (λ (n : IrNode). n.id) base.ir.nodes) then ok tt else err (invalid_target c)

module _ (p : Platform) where
  unfoldable pub literals_of :
      WorkingBase → List CanonicalFactRecord → Result QueryError (List Formula)
  unfolding or_facts_error
  literals_of base facts = or_facts_error (apply_canonical_facts_to_solver p base.ir facts)

  -- What `_push_base` asserts of the assumptions.
  unfoldable pub pushed_assumptions : ReasoningAssumptions → List Formula
  pushed_assumptions phi = if is_empty phi then [] else assumption_literals p phi

-- What an answer of the solver means, after it.
unfoldable pub called : ℕ → CheckResult → Result QueryError (Status Bool × ℕ)
called n (sat _) = ok (answered true, suc n)
called n unsat = ok (answered false, suc n)
called n unknown = ok (stopped timeout, suc n)

module _ (p : Platform) (check : ℕ → ℕ → List Formula → CheckResult) where
  -- One call of the solver: is there a model?
  unfoldable pub call : WorkingBase → List Formula → Run Bool
  unfolding called
  call base fs n = called n (check base.timeout_ms n fs)

  unfoldable pub ask : WorkingBase → List Formula → Run Bool
  unfolding and_then within_budget call
  ask base fs = and_then (within_budget base) (λ _. call base fs)

  unfoldable pub theory_step : WorkingBase → Run Unit
  unfolding and_then call within_budget
  theory_step base =
      if base.sat_t_established
      then answer tt
      else and_then (call base base.theory)
          (λ found. if found then within_budget base else raises theory_unsat)

  unfoldable pub evidence_step : WorkingBase → List CanonicalFactRecord → Run (List Formula)
  unfolding and_then within_budget literals_of call
  evidence_step base facts =
      if is_nil base.admitted
      then answer []
      else and_then (within_budget base) (λ _.
        and_then (result (literals_of p base facts)) (λ literals.
          and_then (call base (base.theory ++ literals))
            (λ found. if found then answer literals else ends (inconsistent answers_inconsistent))))

  unfoldable pub assumption_step : WorkingBase → List Formula → Run Unit
  unfolding and_then ask pushed_assumptions
  assumption_step base literals =
      if is_empty base.assumptions
      then answer tt
      else and_then (ask base (base.theory ++ (literals ++ pushed_assumptions p base.assumptions)))
          (λ found. if found then answer tt else ends (inconsistent assumptions_inconsistent))

  unfoldable pub check_premise_consistency : WorkingBase → Run Unit
  unfolding and_then resolve_facts within_budget theory_step evidence_step assumption_step
  check_premise_consistency base = and_then (result (resolve_facts base)) (λ facts.
      and_then (within_budget base) (λ _.
        and_then (theory_step base)
          (λ _. and_then (evidence_step base facts) (λ literals. assumption_step base literals))))

  -- The first call of a query about a target: does the base have a model that satisfies the formula?
  unfoldable pub witness : WorkingBase → Text → Formula → Run Bool
  unfolding and_then resolve_facts validate_reach_target within_budget literals_of
      pushed_assumptions call
  witness base c f = and_then (result (validate_reach_target base c)) (λ _.
      and_then (result (resolve_facts base)) (λ facts. and_then (within_budget base) (λ _.
        and_then (result (literals_of p base facts)) (λ literals.
          call base
            ((base.theory ++ (literals ++ pushed_assumptions p base.assumptions)) ++ f ∷ [])))))

  -- `_disambiguate_unsat_query`
  unfoldable pub disambiguate : WorkingBase → Bool → Run Bool
  unfolding and_then check_premise_consistency
  disambiguate base on_consistent =
      and_then (check_premise_consistency base) (λ _. answer on_consistent)

  -- `entailed` is true and `not_entailed` is false.
  unfoldable pub entails_target : WorkingBase → Text → Run Bool
  unfolding and_then witness disambiguate
  entails_target base c =
      and_then (witness base c (neg (atom (reach_symbol p c))))
        (λ found. if found then answer false else disambiguate base true)

  -- `possible` is true and `impossible` is false.
  unfoldable pub possible_target : WorkingBase → Text → Run Bool
  unfolding and_then witness disambiguate
  possible_target base c =
      and_then (witness base c (atom (reach_symbol p c)))
        (λ found. if found then answer true else disambiguate base false)
