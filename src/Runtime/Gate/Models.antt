-- ===== src/Runtime/Gate/Models.antt =====
-- What one call of the solver in smeme/reasoning/runtime/consistency_gate.py says of the models.
use smeme.Base.{
  ℕ, true, false, ◌≡◌, refl, subst, ap, inl, inr, List, [], ◌∷◌, ◌++◌, In, head, tail, In-cons,
  In-append_cases,
}
use smeme.Base.Result.{Result, ok, err, ok_injective}
use smeme.Theory.Formula.{Formula, Model, Satisfies}
use smeme.Theory.Symbols.{Platform}
use smeme.Runtime.Facts.{FactError}
use smeme.Runtime.Assumptions.{is_empty}
use smeme.Runtime.Evaluate.{CheckResult, sat, unsat, unknown}
use smeme.Runtime.Sound.{IsSolver}
use smeme.Runtime.Gate.{
  or_facts_error, Status, called, answered, QueryError, WorkingBase, result, call,
  pushed_assumptions,
}
use smeme.Runtime.Gate.Limits.{Returns}

abbrev pub Satisfiable : List Formula → Type 0
Satisfiable fs = (m : Model) × Satisfies m fs

pub Satisfies-first : (fs gs : List Formula) (m : Model) → Satisfies m (fs ++ gs) → Satisfies m fs
Satisfies-first [] gs m s f i = elim i [ ]
Satisfies-first (g ∷ fs) gs m s f i = elim (In-cons i) [
  | inl e ↦ s f (subst (λ z. In f (z ∷ (fs ++ gs))) e head)
  | inr later ↦ Satisfies-first fs gs m (λ h j. s h (tail j)) f later
]

pub Satisfies-last : (fs gs : List Formula) (m : Model) → Satisfies m (fs ++ gs) → Satisfies m gs
Satisfies-last [] gs m s f i = s f i
Satisfies-last (g ∷ fs) gs m s f i = Satisfies-last fs gs m (λ h j. s h (tail j)) f i

pub Satisfies-both :
    (fs gs : List Formula) (m : Model) → Satisfies m fs → Satisfies m gs → Satisfies m (fs ++ gs)
Satisfies-both fs gs m s t f i = elim (In-append_cases fs i) [ inl a ↦ s f a | inr b ↦ t f b ]

-- What the base stands for: the theory, the literals of the evidence, and the assumptions.
abbrev pub asserted_by : Platform → WorkingBase → List Formula → List Formula
asserted_by p base literals = base.theory ++ (literals ++ pushed_assumptions p base.assumptions)

pub answered_injective :
    {B : Type 0} {b c : B} → ◌≡◌ {A = Status B} (answered b) (answered c) → b ≡ c
answered_injective e = cc

pub facts_ok : {A : Type 0} (r : Result FactError A) (a : A) → or_facts_error r ≡ ok a → r ≡ ok a
unfolding or_facts_error
facts_ok (ok b) a h = ap ok (ok_injective h)
facts_ok (err e) a h = absurd (cc)

pub pushed_none :
    (p : Platform) (base : WorkingBase)
    → is_empty base.assumptions ≡ true
    → pushed_assumptions p base.assumptions ≡ []
unfolding pushed_assumptions
pushed_none p base e = rw e refl

pub result-answered :
    {A : Type 0} (x : Result QueryError A) (n k : ℕ) (a : A)
    → Returns (result x) n (answered a) k
    → x ≡ ok a
result-answered (ok b) n k a h = ap ok (answered_injective (ap (λ x. x.0) (ok_injective h)))
result-answered (err e) n k a h = absurd (cc)

module _ (p : Platform) (check : ℕ → ℕ → List Formula → CheckResult)
    (solver : (t n : ℕ) → IsSolver (check t n)) (base : WorkingBase) where
  pub call-true :
      (fs : List Formula) (n k : ℕ)
      → Returns (call p check base fs) n (answered true) k
      → Satisfiable fs
  unfolding call called
  call-true fs n k h = parts (check base.timeout_ms n fs) refl h
    where
      parts :
          (c : CheckResult)
          → check base.timeout_ms n fs ≡ c
          → called n c ≡ ok (answered true, k)
          → Satisfiable fs
      parts (sat m) e r = (m, (solver base.timeout_ms n).sat_holds fs m e)
      parts unsat e r = absurd (cc (ap (λ x. x.0) (ok_injective r)))
      parts unknown e r = absurd (cc (ap (λ x. x.0) (ok_injective r)))

  pub call-false :
      (fs : List Formula) (n k : ℕ)
      → Returns (call p check base fs) n (answered false) k
      → (m : Model) → Satisfies m fs
      → ⊥
  unfolding call called
  call-false fs n k h = parts (check base.timeout_ms n fs) refl h
    where
      parts :
          (c : CheckResult)
          → check base.timeout_ms n fs ≡ c
          → called n c ≡ ok (answered false, k)
          → (m : Model) → Satisfies m fs
          → ⊥
      parts (sat m) e r = absurd (cc (ap (λ x. x.0) (ok_injective r)))
      parts unsat e r = λ m s. (solver base.timeout_ms n).unsat_none fs m e s
      parts unknown e r = absurd (cc (ap (λ x. x.0) (ok_injective r)))
