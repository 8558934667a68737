-- ===== src/Base/Keyed.antt =====
-- Lookup by a text key in a list of records.
use mathlib.Core.Path.{◌≡◌, refl, sym, subst, ap, ◌∙◌}
use mathlib.Core.Logic.{inl, inr}
use mathlib.Core.Bool.{Bool, true, false}
use mathlib.Core.Option.{none, some}
use mathlib.Core.List.{List, [], ◌∷◌, map}
use native.Mathlib.Omega.{arith}
use smeme.Base.Tests.{Bool-cases, Option-cases}
use smeme.Base.Lists.{find_last, find, keep, In, head, tail, In-cons, In-map, In-of_map}
use smeme.Base.Strings.{Text, ◌==◌, ==→eq, eq_refl, mem, mem→In, In→mem, Distinct}

module _ {ℓ} {A : Type ℓ} where
  pub find_last-some :
      (p : A → Bool) (xs : List A) {x : A} → find_last p xs ≡ some x → In x xs × (p x ≡ true)
  find_last-some p [] h = absurd (cc)
  find_last-some p (y ∷ ys) {x} h = elim (Option-cases (find_last p ys)) [
    | inl e ↦ elim (Bool-cases (p y)) [
      | inl q ↦
          let same : y ≡ x = ground arith in
          (subst (λ z. In z (y ∷ ys)) same head, subst (λ z. p z ≡ true) same q)
      | inr q ↦ absurd (ground arith)
    ]
    | inr (z, e) ↦
        let (m, q) = find_last-some p ys e in
        let same : z ≡ x = ground arith in
        (tail (subst (λ w. In w ys) same m), subst (λ w. p w ≡ true) same q)
  ]

  pub find_last-none :
      (p : A → Bool) (xs : List A) {x : A} → find_last p xs ≡ none → In x xs → p x ≡ false
  find_last-none p [] h m = elim m [ ]
  find_last-none p (y ∷ ys) h head = ground arith
  find_last-none p (y ∷ ys) h (tail m) = find_last-none p ys (ground arith) m

  pub find-some : (p : A → Bool) (xs : List A) {x : A} → find p xs ≡ some x → In x xs × (p x ≡ true)
  find-some p [] h = absurd (cc)
  find-some p (y ∷ ys) {x} h = elim (Bool-cases (p y)) [
    | inl q ↦
        let same : y ≡ x = ground arith in
        (subst (λ z. In z (y ∷ ys)) same head, subst (λ z. p z ≡ true) same q)
    | inr q ↦ let (m, r) = find-some p ys (ground arith) in (tail m, r)
  ]

module _ {ℓ} {A : Type ℓ} (key : A → Text) where
  abbrev pub has_key : Text → A → Bool
  has_key k x = key x == k

  key_clash :
      (k : Text) (xs : List A) {x : A} → mem k (map key xs) ≡ false → In x xs → key x ≡ k → ⊥
  key_clash k xs {x} h m e = cc (h, In→mem (subst (λ j. In j (map key xs)) e (In-map key m)))

  -- In a list with distinct keys an item is the only one with its key.
  pub key_unique :
      (xs : List A) {x y : A} → Distinct (map key xs) → In x xs → In y xs → key x ≡ key y → x ≡ y
  key_unique [] d m n e = elim m [ ]
  key_unique (z ∷ zs) {x} {y} d m n e = elim (In-cons m) [
    | inl a ↦ elim (In-cons n) [
      | inl b ↦ cc
      | inr b ↦ absurd (key_clash (key z) zs d.0 b (sym e ∙ ap key a))
    ]
    | inr a ↦ elim (In-cons n) [
      | inl b ↦ absurd (key_clash (key z) zs d.0 a (e ∙ ap key b))
      | inr b ↦ key_unique zs d.1 a b e
    ]
  ]

  pub find_last-key :
      (xs : List A) {x : A}
      → Distinct (map key xs)
      → In x xs
      → find_last (has_key (key x)) xs ≡ some x
  find_last-key xs {x} d m = elim (Option-cases (find_last (has_key (key x)) xs)) [
    | inl e ↦ absurd (cc (find_last-none (has_key (key x)) xs e m, eq_refl (key x)))
    | inr (y, e) ↦
        let (n, q) = find_last-some (has_key (key x)) xs e in
        cc (key_unique xs d n m (==→eq (key y) (key x) q))
  ]

  pub key_known :
      (xs : List A) (k : Text) → mem k (map key xs) ≡ true → (x : A) × In x xs × (key x ≡ k)
  key_known xs k h = In-of_map key xs (mem→In k (map key xs) h)

  mem-keep :
      (p : A → Bool) (k : Text) (xs : List A)
      → mem k (map key xs) ≡ false
      → mem k (map key (keep p xs)) ≡ false
  mem-keep p k [] h = refl
  mem-keep p k (x ∷ xs) h = ground (arith, mem-keep p k xs)

  pub Distinct-keep :
      (p : A → Bool) (xs : List A) → Distinct (map key xs) → Distinct (map key (keep p xs))
  Distinct-keep p [] d = tt
  Distinct-keep p (x ∷ xs) d = elim (Bool-cases (p x)) [
    | inl e ↦ rw e (mem-keep p (key x) xs d.0, Distinct-keep p xs d.1)
    | inr e ↦ rw e (Distinct-keep p xs d.1)
  ]
