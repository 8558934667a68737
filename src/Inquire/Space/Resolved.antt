-- ===== src/Inquire/Space/Resolved.antt =====
-- `resolved_conclusion` of smeme/reasoning/runtime/inquire/space.py against the models of the base.
use smeme.Base.{
  ℕ, Text, ◌==◌, eq_iff, ==→eq, text_leb, mem, Distinct, Distinct-keep, Distinct-sort, In→mem, Bool,
  true, false, if◌then◌else◌, ◌≡◌, ◌≢◌, ◌↔◌, ◌⊎◌, inl, inr, sym, subst, ap, ◌∙◌, Option, none, some,
  List, [], ◌∷◌, In, head, tail, In-cons, Bool-cases, arith,
}
use smeme.Base.Result.{ok, ok_injective}
use smeme.Ir.Types.{Ir, IrNode, question, conclusion}
use smeme.Ir.Validate.Spec.{ids_of}
use smeme.Theory.Formula.{Formula, Model, Satisfies}
use smeme.Theory.Symbols.{Platform, reach_symbol}
use smeme.Runtime.Facts.{CanonicalFactRecord}
use smeme.Runtime.Evaluate.{CheckResult, conclusion_ids}
use smeme.Runtime.Sound.{IsSolver}
use smeme.Runtime.Gate.{
  answered, Run, WorkingBase, answer, resolve_facts, literals_of, possible_target, entails_target,
}
use smeme.Runtime.Gate.Limits.{Returns, and_then-answered}
use smeme.Runtime.Gate.Models.{Satisfiable, asserted_by, answered_injective}
use smeme.Runtime.Gate.Meaning.{
  possible_target-true, possible_target-false, entails_target-true, entails_target-false,
}
use smeme.Inquire.Space.{check_cons, first_two, if_entailed, resolved_conclusion}

-- `Resolved(B)`: the base has a model, and all its models reach one conclusion and no other.
pub record IsResolved (p : Platform) (ir : Ir) (fs : List Formula) (c : Text) : Type 0 where
  pub satisfiable : Satisfiable fs
  pub listed : In c (conclusion_ids ir)
  pub forced : (m : Model) → Satisfies m fs → m (reach_symbol p c) ≡ true
  pub others :
      (d : Text)
      → In d (conclusion_ids ir)
      → d ≢ c
      → (m : Model) → Satisfies m fs
      → m (reach_symbol p d) ≡ false

conclusion_ids-Distinct : (ir : Ir) → Distinct (ids_of ir.nodes) → Distinct (conclusion_ids ir)
unfolding conclusion_ids
conclusion_ids-Distinct ir d = Distinct-sort text_leb _ (
    Distinct-keep (λ (n : IrNode). n.id)
      (λ (n : IrNode). elim n.kind [ conclusion ↦ true | question ↦ false ]) ir.nodes d)

module _ (p : Platform) (check : ℕ → ℕ → List Formula → CheckResult)
    (solver : (t n : ℕ) → IsSolver (check t n)) (base : WorkingBase)
    (facts : List CanonicalFactRecord) (ls : List Formula)
    (resolved : resolve_facts base ≡ ok facts) (projected : literals_of p base facts ≡ ok ls)
    (trusted : base.sat_t_established ≡ true → Satisfiable base.theory) where
  abbrev asserted : List Formula
  asserted = asserted_by p base ls

  abbrev IsPossible : Text → Type 0
  IsPossible c = (m : Model) × Satisfies m asserted × (m (reach_symbol p c) ≡ true)

  abbrev IsImpossible : Text → Type 0
  IsImpossible c = (m : Model) → Satisfies m asserted → m (reach_symbol p c) ≡ false

  IsPossible-true :
      (c : Text) (n k : ℕ)
      → Returns (possible_target p check base c) n (answered true) k
      → IsPossible c
  IsPossible-true = possible_target-true p check solver base facts ls resolved projected trusted

  IsImpossible-false :
      (c : Text) (n k : ℕ)
      → Returns (possible_target p check base c) n (answered false) k
      → IsImpossible c
  IsImpossible-false c n k h =
      (possible_target-false p check solver base facts ls resolved projected trusted c n k h).1

  -- What the loop finds from a possible conclusion on: no other, or one more.
  abbrev Second : Text → List Text → List Text → Type 0
  Second x ids res =
      ((res ≡ x ∷ []) × ((d : Text) → In d ids → IsImpossible d))
      ⊎ ((y : Text) × In y ids × IsPossible y × (res ≡ x ∷ y ∷ []))

  Second-skip :
      (x id : Text) (ids res : List Text)
      → IsImpossible id
      → Second x ids res
      → Second x (id ∷ ids) res
  Second-skip x id ids res out (inl (e, rest)) = inl (
    e,
    λ d i. elim (In-cons i) [
      | inl same ↦ subst IsImpossible (sym same) out
      | inr later ↦ rest d later
    ],
  )
  Second-skip x id ids res out (inr (y, i, m, e)) = inr (y, tail i, m, e)

  second_lem :
      (x : Text) (ids : List Text) (n k : ℕ) (res : List Text)
      → Returns (first_two p check base (x ∷ []) ids) n (answered res) k
      → Second x ids res
  unfolding first_two
  second_lem x [] n k res h =
      inl (sym (answered_injective (ap (λ z. z.0) (ok_injective h))), λ d i. elim i [ ])
  second_lem x (id ∷ ids) n k res h =
      let (b, j, a, rest) = and_then-answered (possible_target p check base id) decided n h in
      parts b j a rest (λ r. second_lem x ids j k res r)
    where
      decided : Bool → Run (List Text)
      decided b = if b then answer (x ∷ id ∷ []) else first_two p check base (x ∷ []) ids

      parts :
          (b : Bool) (j : ℕ)
          → Returns (possible_target p check base id) n (answered b) j
          → Returns (decided b) j (answered res) k
          → (Returns (first_two p check base (x ∷ []) ids) j (answered res) k → Second x ids res)
          → Second x (id ∷ ids) res
      parts true j a r ih = inr (
        id,
        head,
        IsPossible-true id n j a,
        sym (answered_injective (ap (λ z. z.0) (ok_injective r))),
      )
      parts false j a r ih = Second-skip x id ids res (IsImpossible-false id n j a) (ih r)

  -- What the loop finds at all.
  abbrev First : List Text → List Text → Type 0
  First ids res =
      ((res ≡ []) × ((d : Text) → In d ids → IsImpossible d))
      ⊎ ((x : Text) × In x ids
          × IsPossible x
          × (((res ≡ x ∷ []) × ((d : Text) → In d ids → d ≢ x → IsImpossible d))
              ⊎ ((y : Text) × (x ≢ y) × IsPossible y × In y ids × (res ≡ x ∷ y ∷ []))))

  First-skip :
      (id : Text) (ids res : List Text) → IsImpossible id → First ids res → First (id ∷ ids) res
  First-skip id ids res out (inl (e, rest)) = inl (
    e,
    λ d i. elim (In-cons i) [
      | inl same ↦ subst IsImpossible (sym same) out
      | inr later ↦ rest d later
    ],
  )
  First-skip id ids res out (inr (x, i, m, inl (e, rest))) = inr (
    x,
    tail i,
    m,
    inl (
      e,
      λ d j other. elim (In-cons j) [
        | inl same ↦ subst IsImpossible (sym same) out
        | inr later ↦ rest d later other
      ],
    ),
  )
  First-skip id ids res out (inr (x, i, m, inr (y, other, k, j, e))) =
      inr (x, tail i, m, inr (y, other, k, tail j, e))

  First-take :
      (id : Text) (ids res : List Text)
      → mem id ids ≡ false
      → IsPossible id
      → Second id ids res
      → First (id ∷ ids) res
  First-take id ids res new m (inl (e, rest)) = inr (
    id,
    head,
    m,
    inl (
      e,
      λ d i other. elim (In-cons i) [ inl same ↦ absurd (other same) | inr later ↦ rest d later ],
    ),
  )
  First-take id ids res new m (inr (y, i, k, e)) = inr (
    id,
    head,
    m,
    inr (y, (λ same. cc (new, In→mem (subst (λ z. In z ids) (sym same) i))), k, tail i, e),
  )

  first_lem :
      (ids : List Text) (n k : ℕ) (res : List Text)
      → Distinct ids
      → Returns (first_two p check base [] ids) n (answered res) k
      → First ids res
  unfolding first_two
  first_lem [] n k res d h =
      inl (sym (answered_injective (ap (λ z. z.0) (ok_injective h))), λ x i. elim i [ ])
  first_lem (id ∷ ids) n k res (new, d) h =
      let (b, j, a, rest) = and_then-answered (possible_target p check base id) decided n h in
      parts b j a rest (λ r. first_lem ids j k res d r)
    where
      decided : Bool → Run (List Text)
      decided b = if b then first_two p check base (id ∷ []) ids else first_two p check base [] ids

      parts :
          (b : Bool) (j : ℕ)
          → Returns (possible_target p check base id) n (answered b) j
          → Returns (decided b) j (answered res) k
          → (Returns (first_two p check base [] ids) j (answered res) k → First ids res)
          → First (id ∷ ids) res
      parts true j a r ih =
          First-take id ids res new (IsPossible-true id n j a) (second_lem id ids j k res r)
      parts false j a r ih = First-skip id ids res (IsImpossible-false id n j a) (ih r)

  same_or_other : (c d : Text) → (c ≡ d) ⊎ (c ≢ d)
  same_or_other c d = elim (Bool-cases (c == d)) [
    | inl e ↦ inl (==→eq c d e)
    | inr e ↦ inr (λ same. ground (arith, eq_iff c d))
  ]

  abbrev Spec : Text → Type 0
  Spec = IsResolved p base.ir asserted

  -- A resolved conclusion is possible, and every possible one is it.
  resolved_possible : (c d : Text) → Spec c → In d (conclusion_ids base.ir) → IsPossible d → d ≡ c
  resolved_possible c d s i (m, a, reached) = elim (same_or_other d c) [
    | inl e ↦ e
    | inr other ↦ absurd (cc (s.others d i other m a))
  ]

  resolved_not_impossible : (c : Text) → Spec c → IsImpossible c → ⊥
  resolved_not_impossible c s out = let (m, a) = s.satisfiable in cc (s.forced m a, out m a)

  some_text_injective : {a b : Text} → ◌≡◌ {A = Option Text} (some a) (some b) → a ≡ b
  some_text_injective e = cc

  -- The one possible conclusion, entailed or not.
  only_lem :
      (x : Text) (n k : ℕ) (r : Option Text)
      → In x (conclusion_ids base.ir)
      → ((d : Text) → In d (conclusion_ids base.ir) → d ≢ x → IsImpossible d)
      → Returns (if_entailed p check base (x ∷ [])) n (answered r) k
      → (c : Text) → (r ≡ some c) ↔ Spec c
  unfolding if_entailed
  only_lem x n k r i rest h c =
      let (e, j, a, b) =
        and_then-answered (entails_target p check base x) (λ e. answer (if e then some x else none))
          n h in
      parts e j a (answered_injective (ap (λ z. z.0) (ok_injective b)))
    where
      is_x : Spec c → c ≡ x
      is_x s = elim (same_or_other c x) [
        | inl e ↦ e
        | inr other ↦ absurd (resolved_not_impossible c s (rest c s.listed other))
      ]

      parts :
          (e : Bool) (j : ℕ)
          → Returns (entails_target p check base x) n (answered e) j
          → (if e then some x else none) ≡ r
          → (r ≡ some c) ↔ Spec c
      parts true j a same =
          let (found, all_reach) =
            entails_target-true p check solver base facts ls resolved projected trusted x n j a in
          (
            λ e.
                subst Spec (some_text_injective (same ∙ e))
                  (record { satisfiable = found; listed = i; forced = all_reach; others = rest }),
            λ s. sym same ∙ ap some (sym (is_x s)),
          )
      parts false j a same =
          let (m, s, missed) =
            entails_target-false p check solver base facts ls resolved projected trusted x n j a in
          (
            λ e. absurd (cc),
            λ t. absurd (cc (subst (λ z. m (reach_symbol p z) ≡ true) (is_x t) (t.forced m s))),
          )

  found_lem :
      (found : List Text) (n k : ℕ) (r : Option Text)
      → First (conclusion_ids base.ir) found
      → Returns (if_entailed p check base found) n (answered r) k
      → (c : Text) → (r ≡ some c) ↔ Spec c
  unfolding if_entailed
  found_lem found n k r (inl (e, none_possible)) h c =
      let is_none : none ≡ r = answered_injective (
        ap (λ z. z.0)
          (ok_injective
            (subst (λ l. Returns (if_entailed p check base l) n (answered r) k) e h))) in
      (λ q. absurd (cc), λ s. absurd (resolved_not_impossible c s (none_possible c s.listed)))
  found_lem found n k r (inr (x, i, m, inl (e, rest))) h c =
      only_lem x n k r i rest
        (subst (λ l. Returns (if_entailed p check base l) n (answered r) k) e h) c
  found_lem found n k r (inr (x, i, m, inr (y, other, l, j, e))) h c =
      let is_none : none ≡ r = answered_injective (
        ap (λ z. z.0)
          (ok_injective
            (subst (λ l. Returns (if_entailed p check base l) n (answered r) k) e h))) in
      (
        λ q. absurd (cc),
        λ s. absurd (other (resolved_possible c x s i m ∙ sym (resolved_possible c y s j l))),
      )

  -- If the solver is right, the theory has a model where the gate trusts that it has one, and no two
  -- nodes have one id, then a query that is answered names a conclusion exactly if the base is resolved
  -- with it: the base has a model, and all its models reach that conclusion and no other.
  pub resolved_conclusion-IsResolved :
      (n k : ℕ) (r : Option Text) (c : Text)
      → Distinct (ids_of base.ir.nodes)
      → resolved_conclusion p check base n ≡ ok (answered r, k)
      → (r ≡ some c) ↔ IsResolved p base.ir (asserted_by p base ls) c
  unfolding resolved_conclusion
  resolved_conclusion-IsResolved n k r c d h =
      let (_, n1, a1, h1) = and_then-answered (check_cons p check base) _ n h in
      let (found, n2, a2, h2) =
        and_then-answered (first_two p check base [] (conclusion_ids base.ir))
          (if_entailed p check base) n1 h1 in
      found_lem found n2 k r
        (first_lem (conclusion_ids base.ir) n1 n2 found (conclusion_ids-Distinct base.ir d) a2) h2 c
