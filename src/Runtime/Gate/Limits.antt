-- ===== src/Runtime/Gate/Limits.antt =====
-- The number of calls of the solver in the queries of smeme/reasoning/runtime/consistency_gate.py and
-- smeme/reasoning/runtime/counterfactual.py.
use smeme.Base.{
  ℕ, ◌≤◌, ◌<◌, Text, Bool, true, false, leb, is_nil, if◌then◌else◌, ◌≡◌, refl, subst, ap, ◌⊎◌, inl,
  inr, List, [], ◌++◌, Bool-cases, arith,
}
use smeme.Base.Result.{Result, ok, err, >>=-eq-ok, ok_injective}
use smeme.Theory.Formula.{Formula, atom, neg}
use smeme.Theory.Symbols.{Platform, reach_symbol}
use smeme.Runtime.Facts.{CanonicalFactRecord}
use smeme.Runtime.Assumptions.{is_empty}
use smeme.Runtime.Evaluate.{CheckResult, sat, unsat, unknown}
use smeme.Runtime.Gate.{
  Status, called, answers_inconsistent, assumptions_inconsistent, answered, inconsistent, stopped,
  QueryError, Run, WorkingBase, after, and_then, answer, ends, raises, result, resolve_facts,
  within_budget, validate_reach_target, call, ask, literals_of, theory_step, evidence_step,
  assumption_step, check_premise_consistency, witness, disambiguate, entails_target,
  possible_target, theory_unsat,
}

-- A run that returned.
abbrev pub Returns : {A : Type 0} → Run A → ℕ → Status A → ℕ → Type 0
Returns run n s k = run n ≡ ok (s, k)

-- A query went on after an answer, or ended with the status of its first part.
pub and_then-cases :
    {A B : Type 0} (first : Run A) (next : A → Run B) (n : ℕ) {s : Status B} {k : ℕ}
    → Returns (and_then first next) n s k
    → ((a : A) × (j : ℕ) × Returns first n (answered a) j × Returns (next a) j s k)
      ⊎ ((t : Status A) × Returns first n t k × ((b : B) → s ≡ answered b → ⊥))
unfolding and_then
and_then-cases first next n {s} {k} h =
    let ((t, j), returned, rest) = >>=-eq-ok (first n) (after next) h in parts t j returned rest
  where
    parts :
        (t : Status _) (j : ℕ)
        → Returns first n t j
        → after next (t, j) ≡ ok (s, k)
        → ((a : _) × (i : ℕ) × Returns first n (answered a) i × Returns (next a) i s k)
          ⊎ ((u : Status _) × Returns first n u k × ((b : _) → s ≡ answered b → ⊥))
    parts (answered a) j r rest = inl (a, j, r, rest)
    parts (inconsistent c) j r rest =
        let same = ok_injective rest in
        inr (
          inconsistent c,
          subst (λ z. Returns first n (inconsistent c) z) (ap (λ x. x.1) same) r,
          λ b e. cc (ap (λ x. x.0) same),
        )
    parts (stopped o) j r rest =
        let same = ok_injective rest in
        inr (
          stopped o,
          subst (λ z. Returns first n (stopped o) z) (ap (λ x. x.1) same) r,
          λ b e. cc (ap (λ x. x.0) same),
        )

-- An answer comes from an answer of the first part.
pub and_then-answered :
    {A B : Type 0} (first : Run A) (next : A → Run B) (n : ℕ) {b : B} {k : ℕ}
    → Returns (and_then first next) n (answered b) k
    → (a : A) × (j : ℕ) × Returns first n (answered a) j × Returns (next a) j (answered b) k
and_then-answered first next n h = elim (and_then-cases first next n h) [
  | inl went ↦ went
  | inr (t, r, ended) ↦ absurd (ended _ refl)
]

-- With no more calls before than are allowed, there are no fewer and no more than are allowed after.
abbrev pub IsFrugal : {A : Type 0} → WorkingBase → Run A → Type 0
IsFrugal {A} base run =
    (n : ℕ) (s : Status A) (k : ℕ)
    → n ≤ base.max_sat_calls
    → Returns run n s k
    → (n ≤ k) × (k ≤ base.max_sat_calls)

-- The same, where one more call is allowed.
abbrev pub IsReady : {A : Type 0} → WorkingBase → Run A → Type 0
IsReady {A} base run =
    (n : ℕ) (s : Status A) (k : ℕ)
    → n < base.max_sat_calls
    → Returns run n s k
    → (n ≤ k) × (k ≤ base.max_sat_calls)

module _ (base : WorkingBase) where
  pub ends-IsFrugal : {A : Type 0} (s : Status A) → IsFrugal base (ends s)
  ends-IsFrugal s n t k h r = let same = ap (λ x. x.1) (ok_injective r) in ground (arith, same)

  pub raises-IsFrugal : {A : Type 0} (e : QueryError) → IsFrugal base (raises {A = A} e)
  raises-IsFrugal e n t k h r = absurd (cc)

  IsFrugal→IsReady : {A : Type 0} (run : Run A) → IsFrugal base run → IsReady base run
  IsFrugal→IsReady run f n s k h r = f n s k (omega arith) r

  pub and_then-IsFrugal :
      {A B : Type 0} (first : Run A) (next : A → Run B)
      → IsFrugal base first
      → ((a : A) → IsFrugal base (next a))
      → IsFrugal base (and_then first next)
  and_then-IsFrugal first next f g n s k h r = elim (and_then-cases first next n r) [
    | inl (a, j, r1, r2) ↦
        let (x, y) = f n (answered a) j h r1 in let (z, w) = g a j s k y r2 in (omega arith, w)
    | inr (t, r1, ended) ↦ f n t k h r1
  ]

  pub and_then-IsReady :
      {A B : Type 0} (first : Run A) (next : A → Run B)
      → IsReady base first
      → ((a : A) → IsFrugal base (next a))
      → IsReady base (and_then first next)
  and_then-IsReady first next f g n s k h r = elim (and_then-cases first next n r) [
    | inl (a, j, r1, r2) ↦
        let (x, y) = f n (answered a) j h r1 in let (z, w) = g a j s k y r2 in (omega arith, w)
    | inr (t, r1, ended) ↦ f n t k h r1
  ]

  result_same :
      {A : Type 0} (x : Result QueryError A) (n : ℕ) (s : Status A) (k : ℕ)
      → Returns (result x) n s k
      → n ≡ k
  result_same (ok a) n s k r = ap (λ x. x.1) (ok_injective r)
  result_same (err e) n s k r = absurd (cc)

  pub result-IsFrugal : {A : Type 0} (x : Result QueryError A) → IsFrugal base (result x)
  result-IsFrugal x n s k h r = let same = result_same x n s k r in (omega arith, omega arith)

  pub result-IsReady :
      {A B : Type 0} (x : Result QueryError A) (next : A → Run B)
      → ((a : A) → IsReady base (next a))
      → IsReady base (and_then (result x) next)
  result-IsReady x next g n s k h r = elim (and_then-cases (result x) next n r) [
    | inl (a, j, r1, r2) ↦
        let same = result_same x n (answered a) j r1 in
        let (z, w) = g a j s k (omega arith) r2 in (omega arith, w)
    | inr (t, r1, ended) ↦ let same = result_same x n t k r1 in (omega arith, omega arith)
  ]

  -- After the test of the budget one more call is allowed.
  pub within-IsFrugal :
      {B : Type 0} (next : Unit → Run B)
      → IsReady base (next tt)
      → IsFrugal base (and_then (within_budget base) next)
  unfolding within_budget and_then
  within-IsFrugal next g n s k h r = elim (Bool-cases (leb base.max_sat_calls n)) [
    | inl spent ↦
        let same = ap (λ x. x.1) (ok_injective (rw spent at r)) in (omega arith, omega arith)
    | inr left ↦ g n s k (ground arith) (rw left at r)
  ]

  within_budget-IsFrugal : IsFrugal base (within_budget base)
  unfolding within_budget
  within_budget-IsFrugal n s k h r =
      let same = ap (λ x. x.1) (ok_injective r) in (omega arith, omega arith)

module _ (p : Platform) (check : ℕ → ℕ → List Formula → CheckResult) (base : WorkingBase) where
  pub call-IsReady : (fs : List Formula) → IsReady base (call p check base fs)
  unfolding call called
  call-IsReady fs n s k h r = parts (check base.timeout_ms n fs) r
    where
      parts : (c : CheckResult) → called n c ≡ ok (s, k) → (n ≤ k) × (k ≤ base.max_sat_calls)
      parts (sat m) e = let same = ap (λ x. x.1) (ok_injective e) in (omega arith, omega arith)
      parts unsat e = let same = ap (λ x. x.1) (ok_injective e) in (omega arith, omega arith)
      parts unknown e = let same = ap (λ x. x.1) (ok_injective e) in (omega arith, omega arith)

  ask-IsFrugal : (fs : List Formula) → IsFrugal base (ask p check base fs)
  unfolding ask
  ask-IsFrugal fs = within-IsFrugal base (λ _. call p check base fs) (call-IsReady fs)

  theory_step-IsReady : IsReady base (theory_step p check base)
  unfolding theory_step
  theory_step-IsReady = elim (Bool-cases base.sat_t_established) [
    | inl e ↦ rw e (IsFrugal→IsReady base (answer tt) (ends-IsFrugal base (answered tt)))
    | inr e ↦ rw e (
        and_then-IsReady base (call p check base base.theory)
          (λ found. if found then within_budget base else raises theory_unsat)
          (call-IsReady base.theory) (λ found. decided found))
  ]
    where
      decided :
          (found : Bool) → IsFrugal base (if found then within_budget base else raises theory_unsat)
      decided true = within_budget-IsFrugal base
      decided false = raises-IsFrugal base theory_unsat

  evidence_step-IsFrugal :
      (facts : List CanonicalFactRecord) → IsFrugal base (evidence_step p check base facts)
  unfolding evidence_step
  evidence_step-IsFrugal facts = elim (Bool-cases (is_nil base.admitted)) [
    | inl e ↦ rw e (ends-IsFrugal base (answered []))
    | inr e ↦ rw e (
        within-IsFrugal base (λ _. pushed)
          (result-IsReady base (literals_of p base facts) asked (λ literals.
            and_then-IsReady base (call p check base (base.theory ++ literals)) (decided literals)
              (call-IsReady (base.theory ++ literals)) (frugal literals))))
  ]
    where
      decided : List Formula → Bool → Run (List Formula)
      decided literals found =
          if found then answer literals else ends (inconsistent answers_inconsistent)

      frugal : (literals : List Formula) (found : Bool) → IsFrugal base (decided literals found)
      frugal literals true = ends-IsFrugal base (answered literals)
      frugal literals false = ends-IsFrugal base (inconsistent answers_inconsistent)

      asked : List Formula → Run (List Formula)
      asked literals = and_then (call p check base (base.theory ++ literals)) (decided literals)

      pushed : Run (List Formula)
      pushed = and_then (result (literals_of p base facts)) asked

  assumption_step-IsFrugal :
      (literals : List Formula) → IsFrugal base (assumption_step p check base literals)
  unfolding assumption_step
  assumption_step-IsFrugal literals = elim (Bool-cases (is_empty base.assumptions)) [
    | inl e ↦ rw e (ends-IsFrugal base (answered tt))
    | inr e ↦ rw e (and_then-IsFrugal base _ decided (ask-IsFrugal _) frugal)
  ]
    where
      decided : Bool → Run Unit
      decided found = if found then answer tt else ends (inconsistent assumptions_inconsistent)

      frugal : (found : Bool) → IsFrugal base (decided found)
      frugal true = ends-IsFrugal base (answered tt)
      frugal false = ends-IsFrugal base (inconsistent assumptions_inconsistent)

  pub check_premise_consistency-IsFrugal : IsFrugal base (check_premise_consistency p check base)
  unfolding check_premise_consistency
  check_premise_consistency-IsFrugal =
      and_then-IsFrugal base (result (resolve_facts base)) _
        (result-IsFrugal base (resolve_facts base))
        (λ facts. within-IsFrugal base _ (
          and_then-IsReady base (theory_step p check base) _ theory_step-IsReady (λ _.
            and_then-IsFrugal base (evidence_step p check base facts) _
              (evidence_step-IsFrugal facts) (λ literals. assumption_step-IsFrugal literals))))

  witness-IsFrugal : (c : Text) (f : Formula) → IsFrugal base (witness p check base c f)
  unfolding witness
  witness-IsFrugal c f =
      and_then-IsFrugal base (result (validate_reach_target base c)) _ (result-IsFrugal base _)
        (λ _.
          and_then-IsFrugal base (result (resolve_facts base)) _ (result-IsFrugal base _) (λ facts.
            within-IsFrugal base _
              (result-IsReady base (literals_of p base facts) _ (λ literals. call-IsReady _))))

  disambiguate-IsFrugal : (b : Bool) → IsFrugal base (disambiguate p check base b)
  unfolding disambiguate
  disambiguate-IsFrugal b =
      and_then-IsFrugal base (check_premise_consistency p check base) _
        check_premise_consistency-IsFrugal (λ _. ends-IsFrugal base (answered b))

  abbrev on_witness : Bool → Bool → Bool → Run Bool
  on_witness found on_model on_consistent =
      if found then answer on_model else disambiguate p check base on_consistent

  on_witness-IsFrugal : (a b found : Bool) → IsFrugal base (on_witness found a b)
  on_witness-IsFrugal a b true = ends-IsFrugal base (answered a)
  on_witness-IsFrugal a b false = disambiguate-IsFrugal b

  pub entails_target-IsFrugal : (c : Text) → IsFrugal base (entails_target p check base c)
  unfolding entails_target
  entails_target-IsFrugal c =
      and_then-IsFrugal base (witness p check base c (neg (atom (reach_symbol p c)))) _
        (witness-IsFrugal c _) (on_witness-IsFrugal false true)

  pub possible_target-IsFrugal : (c : Text) → IsFrugal base (possible_target p check base c)
  unfolding possible_target
  possible_target-IsFrugal c =
      and_then-IsFrugal base (witness p check base c (atom (reach_symbol p c))) _
        (witness-IsFrugal c _) (on_witness-IsFrugal true false)
