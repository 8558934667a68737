-- ===== src/Base/Sets.antt =====
-- Sets of texts as lists: what is dropped from a list without repetitions, and sorting.
use mathlib.Core.Path.{◌≡◌, refl, subst, ◌∙◌}
use mathlib.Core.Logic.{inl, inr}
use mathlib.Core.Bool.{Bool, true, false, ◌||◌}
use mathlib.Core.List.{List, [], ◌∷◌, map}
use native.Mathlib.Omega.{arith}
use Prim.Native.Nat.{◌≤◌}
use smeme.Base.Tests.{Bool-cases, bool_ext}
use smeme.Base.Lists.{length, In, In-cons, In-map, In-of_map}
use smeme.Base.Strings.{Text, ◌==◌, eq_iff, ==→eq, eq_refl, mem, mem→In, In→mem, distinct, Distinct}
use smeme.Base.Sort.{insort, sort, In-sort, In-of_sort}

pub length-distinct-le : (seen xs : List Text) → length (distinct seen xs) ≤ length xs
unfolding distinct
length-distinct-le seen [] = omega arith
length-distinct-le seen (x ∷ xs) = elim (Bool-cases (mem x seen)) [
  | inl e ↦ rw e (omega (arith, length-distinct-le seen xs))
  | inr e ↦ rw e (omega (arith, length-distinct-le (x ∷ seen) xs))
]

-- A list that loses nothing has no repetition.
pub Distinct-length :
    (seen xs : List Text)
    → length (distinct seen xs) ≡ length xs
    → Distinct xs × ((x : Text) → In x xs → mem x seen ≡ false)
unfolding distinct
Distinct-length seen [] h = (tt, λ x m. elim m [ ])
Distinct-length seen (x ∷ xs) h = elim (Bool-cases (mem x seen)) [
  | inl e ↦ absurd (omega (arith, rw e at h, length-distinct-le seen xs))
  | inr e ↦
      let (d, out) = Distinct-length (x ∷ seen) xs (omega (arith, rw e at h)) in
      let fresh : mem x xs ≡ false = elim (Bool-cases (mem x xs)) [
        | inl again ↦ absurd (cc (out x (mem→In x xs again), eq_refl x))
        | inr fine ↦ fine
      ] in
      (
        (fresh, d),
        λ y m. elim (In-cons m) [ inl same ↦ rw same e | inr later ↦ ground (arith, out y later) ],
      )
]

distinct-fresh :
    (y : Text) (seen xs : List Text) → mem y seen ≡ true → mem y (distinct seen xs) ≡ false
unfolding distinct
distinct-fresh y seen [] h = refl
distinct-fresh y seen (x ∷ xs) h = elim (Bool-cases (mem x seen)) [
  | inl e ↦ rw e (distinct-fresh y seen xs h)
  | inr e ↦ elim (Bool-cases (x == y)) [
    | inl same ↦ absurd (cc (subst (λ z. mem z seen ≡ false) (==→eq x y same) e))
    | inr other ↦ ground (arith, e, other, distinct-fresh y (x ∷ seen) xs)
  ]
]

pub Distinct-distinct : (seen xs : List Text) → Distinct (distinct seen xs)
unfolding distinct
Distinct-distinct seen [] = tt
Distinct-distinct seen (x ∷ xs) = elim (Bool-cases (mem x seen)) [
  | inl e ↦ rw e (Distinct-distinct seen xs)
  | inr e ↦
      rw e (
        distinct-fresh x (x ∷ seen) xs (ground (arith, eq_refl x)),
        Distinct-distinct (x ∷ seen) xs,
      )
]

module _ (le : Text → Text → Bool) where
  mem-insort : (a x : Text) (ys : List Text) → mem a (insort le x ys) ≡ (x == a || mem a ys)
  unfolding insort
  mem-insort a x [] = refl
  mem-insort a x (y ∷ ys) = elim (Bool-cases (le x y)) [
    | inl e ↦ rw e refl
    | inr e ↦ rw e (ground (arith, mem-insort a x ys))
  ]

  pub mem-sort : (a : Text) (xs : List Text) → mem a (sort le xs) ≡ mem a xs
  unfolding sort
  mem-sort a [] = refl
  mem-sort a (x ∷ xs) = ground (arith, mem-insort a x (sort le xs), mem-sort a xs)

  Distinct-insort :
      (x : Text) (ys : List Text) → mem x ys ≡ false → Distinct ys → Distinct (insort le x ys)
  unfolding insort
  Distinct-insort x [] h d = (refl, tt)
  Distinct-insort x (y ∷ ys) h d = elim (Bool-cases (le x y)) [
    | inl e ↦ rw e (h, d)
    | inr e ↦ rw e (
      ground (arith, mem-insort y x ys, eq_iff x y, eq_iff y x),
      Distinct-insort x ys (ground arith) d.1,
    )
  ]

  pub Distinct-sort : (xs : List Text) → Distinct xs → Distinct (sort le xs)
  unfolding sort
  Distinct-sort [] d = tt
  Distinct-sort (x ∷ xs) d =
      Distinct-insort x (sort le xs) (mem-sort x xs ∙ d.0) (Distinct-sort xs d.1)

-- Sorting leaves the set of the items' keys.
pub mem-map-sort {ℓ} :
    {A : Type ℓ} (le : A → A → Bool) (f : A → Text) (k : Text) (xs : List A)
    → mem k (map f (sort le xs)) ≡ mem k (map f xs)
mem-map-sort le f k xs =
    bool_ext _ _
      (λ h.
        let (x, i, e) = In-of_map f _ (mem→In k _ h) in
        subst (λ j. mem j (map f xs) ≡ true) e (In→mem (In-map f (In-of_sort le xs i))))
      (λ h.
        let (x, i, e) = In-of_map f _ (mem→In k _ h) in
        subst (λ j. mem j (map f (sort le xs)) ≡ true) e (In→mem (In-map f (In-sort le xs i))))
