-- ===== src/Inquire/Analyze/Questions.antt =====
-- The questions that the searches of smeme/reasoning/runtime/inquire/discriminators.py and
-- smeme/reasoning/runtime/inquire/resolvable.py name.
use smeme.Base.{
  ℕ, zero, suc, Text, Bool, true, false, if◌then◌else◌, ◌≡◌, sym, subst, ap, inl, inr, Option, none,
  some, List, [], ◌∷◌, In, head, tail, In-cons, Bool-cases,
}
use smeme.Base.Result.{ok, >>=-eq-ok, ok_injective}
use smeme.Theory.Formula.{Formula}
use smeme.Theory.Symbols.{Platform}
use smeme.Runtime.Evaluate.{CheckResult}
use smeme.Runtime.Gate.{Status, answered, inconsistent, stopped, budget, Run, WorkingBase, answer}
use smeme.Runtime.Gate.Limits.{Returns, and_then-answered}
use smeme.Runtime.Gate.Models.{answered_injective}
use smeme.Inquire.Types.{Evidence}
use smeme.Inquire.Budget.{InquiryBudget}
use smeme.Inquire.Space.{collect, resolved_conclusion, with_admitted, unanswered_questions}
use smeme.Inquire.Discriminators.{discriminates, myopic_discriminators, options_for}
use smeme.Inquire.Analyze.Candidates.{candidates-question}
use smeme.Inquire.Resolvable.{
  Witness, acquire, budget_miss, least_question, candidates, update_answers, residual_exhausted,
  weigh, try_assignment, search, search_from, search_resolving_witness,
}

pub collect-In :
    (query : Text → Run Bool) (ids : List Text) (n k : ℕ) (res : List Text)
    → Returns (collect query ids) n (answered res) k
    → (x : Text) → In x res
    → In x ids
unfolding collect
collect-In query [] n k res h x m =
    elim (subst (In x) (sym (answered_injective (ap (λ z. z.0) (ok_injective h)))) m) [ ]
collect-In query (id ∷ ids) n k res h x m =
    let (hit, n1, a1, h1) = and_then-answered (query id) _ n h in
    let (rest, n2, a2, h2) =
      and_then-answered (collect query ids) (λ rest. answer (if hit then id ∷ rest else rest)) n1
        h1 in
    parts hit rest (subst (In x) (sym (answered_injective (ap (λ z. z.0) (ok_injective h2)))) m)
      (λ i. collect-In query ids n1 n2 rest a2 x i)
  where
    parts :
        (hit : Bool) (rest : List Text)
        → In x (if hit then id ∷ rest else rest)
        → (In x rest → In x ids)
        → In x (id ∷ ids)
    parts true rest i ih = elim (In-cons i) [
      | inl e ↦ subst (λ z. In z (id ∷ ids)) (sym e) head
      | inr later ↦ tail (ih later)
    ]
    parts false rest i ih = tail (ih i)

module _ (p : Platform) (check : ℕ → ℕ → List Formula → CheckResult) (base : WorkingBase) where
  pub discriminators-In :
      (n k : ℕ) (res : List Text)
      → Returns (myopic_discriminators p check base) n (answered res) k
      → (x : Text) → In x res
      → In x (unanswered_questions base.ir base.admitted)
  unfolding myopic_discriminators
  discriminators-In n k res h =
      collect-In (discriminates p check base) (unanswered_questions base.ir base.admitted) n k res h

  weigh-acquire :
      (q0 q : Text) (s : Status (Option Text)) (j k : ℕ)
      → weigh p check q0 (s, j) ≡ ok (answered (some (acquire q)), k)
      → q ≡ q0
  unfolding weigh
  weigh-acquire q0 q (stopped o) j k h = absurd (cc (ap (λ z. z.0) (ok_injective h)))
  weigh-acquire q0 q (answered (some c)) j k h = cc (ap (λ z. z.0) (ok_injective h))
  weigh-acquire q0 q (answered none) j k h = absurd (cc (ap (λ z. z.0) (ok_injective h)))
  weigh-acquire q0 q (inconsistent c) j k h = absurd (cc (ap (λ z. z.0) (ok_injective h)))

  try_assignment-acquire :
      (alpha : Evidence) (n k : ℕ) (q : Text)
      → Returns (try_assignment p check base alpha) n (answered (some (acquire q))) k
      → q ≡ least_question alpha
  unfolding try_assignment
  try_assignment-acquire alpha n k q h =
      let ((s, j), a, b) =
        >>=-eq-ok
          (resolved_conclusion p check (with_admitted base (update_answers base.admitted alpha)) n)
          (weigh p check (least_question alpha)) h in
      weigh-acquire (least_question alpha) q s j k b

  search-In :
      (limits : InquiryBudget) (start : ℕ) (cs : List Evidence) (n k : ℕ) (q : Text)
      → Returns (search p check base limits start cs) n (answered (acquire q)) k
      → (alpha : Evidence) × In alpha cs × (q ≡ least_question alpha)
  unfolding search
  search-In limits start [] n k q h = absurd (cc (ap (λ z. z.0) (ok_injective h)))
  search-In limits start (alpha ∷ rest) n k q h =
      elim (Bool-cases (residual_exhausted limits start n)) [
        | inl e ↦ absurd (cc (ap (λ z. z.0) (ok_injective (rw e at h))))
        | inr e ↦
            let (found, j, a, b) =
              and_then-answered (try_assignment p check base alpha) decided n (rw e at h) in
            parts found j a b (search-In limits start rest j k q)
      ]
    where
      decided : Option Witness → Run Witness
      decided found = elim found [
        | some w ↦ answer w
        | none ↦ search p check base limits start rest
      ]

      parts :
          (found : Option Witness) (j : ℕ)
          → Returns (try_assignment p check base alpha) n (answered found) j
          → Returns (decided found) j (answered (acquire q)) k
          → (Returns (search p check base limits start rest) j (answered (acquire q)) k
              → (beta : Evidence) × In beta rest × (q ≡ least_question beta))
          → (beta : Evidence) × In beta (alpha ∷ rest) × (q ≡ least_question beta)
      parts (some w) j a b ih = (
        alpha,
        head,
        try_assignment-acquire alpha n j q (
            subst (λ z. Returns (try_assignment p check base alpha) n (answered (some z)) j)
              (answered_injective (ap (λ z. z.0) (ok_injective b))) a),
      )
      parts none j a b ih = let (beta, i, e) = ih b in (beta, tail i, e)

  search_from-In :
      (limits : InquiryBudget) (remaining : List Text) (n k : ℕ) (q : Text)
      → Returns (search_from p check base limits remaining) n (answered (acquire q)) k
      → In q remaining
  unfolding search_from
  search_from-In limits [] n k q h = absurd (cc (ap (λ z. z.0) (ok_injective h)))
  search_from-In limits (r ∷ rs) n k q h = parts limits.max_residual_sat_calls h
    where
      searched :
          Returns
            (search p check base limits n (candidates (options_for base.ir) (r ∷ rs)))
            n
            (answered (acquire q))
            k
          → In q (r ∷ rs)
      searched e =
          let (alpha, i, same) =
            search-In limits n (candidates (options_for base.ir) (r ∷ rs)) n k q e in
          subst (λ z. In z (r ∷ rs)) (sym same)
            (candidates-question (options_for base.ir) (r ∷ rs) alpha i)

      parts :
          (most : Option ℕ)
          → (elim most [
            | some zero ↦ ok (answered (budget_miss budget), n)
            | _ ↦ search p check base limits n (candidates (options_for base.ir) (r ∷ rs)) n
          ])
            ≡ ok (answered (acquire q), k)
          → In q (r ∷ rs)
      parts none e = searched e
      parts (some zero) e = absurd (cc (ap (λ z. z.0) (ok_injective e)))
      parts (some (suc most)) e = searched e

  pub witness-In :
      (limits : InquiryBudget) (n k : ℕ) (q : Text)
      → Returns (search_resolving_witness p check base limits) n (answered (acquire q)) k
      → In q (unanswered_questions base.ir base.admitted)
  unfolding search_resolving_witness
  witness-In limits n k q h =
      search_from-In limits (unanswered_questions base.ir base.admitted) n k q h
