-- ===== src/Base/Sort.antt =====
-- Python's `sorted`, as a stable insertion sort.
use mathlib.Core.Path.{subst, sym}
use mathlib.Core.Logic.{inl, inr}
use mathlib.Core.Bool.{Bool}
use mathlib.Core.List.{List, [], ◌∷◌}
use smeme.Base.Tests.{if◌then◌else◌, Bool-cases}
use Prim.Native.Nat.{suc}
use native.Mathlib.Omega.{arith}
use mathlib.Core.Path.{◌≡◌, refl}
use smeme.Base.Lists.{length, In, head, tail, In-cons}

module _ {ℓ} {A : Type ℓ} (le : A → A → Bool) where
  unfoldable pub insort : A → List A → List A
  insort x [] = x ∷ []
  insort x (y ∷ ys) = if le x y then x ∷ y ∷ ys else y ∷ insort x ys

  unfoldable pub sort : List A → List A
  unfolding insort
  sort [] = []
  sort (x ∷ xs) = insort x (sort xs)

  In-insort_head : (x : A) (ys : List A) → In x (insort x ys)
  unfolding insort
  In-insort_head x [] = head
  In-insort_head x (y ∷ ys) = elim (Bool-cases (le x y)) [
    | inl e ↦ rw e head
    | inr e ↦ rw e (tail (In-insort_head x ys))
  ]

  In-insort : {a : A} (x : A) (ys : List A) → In a ys → In a (insort x ys)
  unfolding insort
  In-insort x [] m = tail m
  In-insort x (y ∷ ys) m = elim (Bool-cases (le x y)) [
    | inl e ↦ rw e (tail m)
    | inr e ↦ rw e (elim (In-cons m) [
      | inl same ↦ subst (λ z. In z (y ∷ insort x ys)) (sym same) head
      | inr later ↦ tail (In-insort x ys later)
    ])
  ]

  In-of_insort : {a : A} (x : A) (ys : List A) → In a (insort x ys) → In a (x ∷ ys)
  unfolding insort
  In-of_insort x [] m = m
  In-of_insort {a} x (y ∷ ys) m = elim (Bool-cases (le x y)) [
    | inl e ↦ rw e at m
    | inr e ↦ elim (In-cons (rw e at m)) [
      | inl same ↦ tail (subst (λ z. In z (y ∷ ys)) (sym same) head)
      | inr later ↦ elim (In-cons (In-of_insort x ys later)) [
        | inl same ↦ subst (λ z. In z (x ∷ y ∷ ys)) (sym same) head
        | inr old ↦ tail (tail old)
      ]
    ]
  ]

  -- Sorting keeps the items.
  pub In-sort : {a : A} (xs : List A) → In a xs → In a (sort xs)
  unfolding sort
  In-sort [] m = m
  In-sort {a} (x ∷ xs) m = elim (In-cons m) [
    | inl same ↦ subst (λ z. In z (insort x (sort xs))) (sym same) (In-insort_head x (sort xs))
    | inr later ↦ In-insort x (sort xs) (In-sort xs later)
  ]

  pub In-of_sort : {a : A} (xs : List A) → In a (sort xs) → In a xs
  unfolding sort
  In-of_sort [] m = m
  In-of_sort {a} (x ∷ xs) m = elim (In-cons (In-of_insort x (sort xs) m)) [
    | inl same ↦ subst (λ z. In z (x ∷ xs)) (sym same) head
    | inr later ↦ tail (In-of_sort xs later)
  ]

  length-insort : (x : A) (ys : List A) → length (insort x ys) ≡ suc (length ys)
  unfolding insort
  length-insort x [] = refl
  length-insort x (y ∷ ys) = ground (arith, length-insort x ys)

  pub length-sort : (xs : List A) → length (sort xs) ≡ length xs
  unfolding sort
  length-sort [] = refl
  length-sort (x ∷ xs) = omega (arith, length-insort x (sort xs), length-sort xs)
