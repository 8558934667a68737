-- ===== src/Base/Lists.antt =====
-- Lists measured by native numbers, and predicates on their items.
use Prim.Native.Nat.{ℕ, zero, suc, ◌+◌, ◌≤◌}
use mathlib.Core.Path.{◌≡◌, refl, ap, sym, subst}
use mathlib.Core.Logic.{◌⊎◌, inl, inr}
use mathlib.Core.Bool.{Bool, true, false, ◌&&◌, ◌||◌}
use mathlib.Core.List.{List, [], ◌∷◌, ◌++◌, map}
use mathlib.Core.Option.{Option, none, some}
use native.Mathlib.Omega.{arith}
use smeme.Base.Tests.{if◌then◌else◌, or-cases, and_intro, Bool-cases}

module _ {ℓ} {A : Type ℓ} where
  abbrev pub length : List A → ℕ
  length [] = 0
  length (x ∷ xs) = suc (length xs)

  -- `[x for x in xs if p(x)]`
  abbrev pub keep : (A → Bool) → List A → List A
  keep p [] = []
  keep p (x ∷ xs) = if p x then x ∷ keep p xs else keep p xs

  -- `any(p(x) for x in xs)` and `all(p(x) for x in xs)`
  abbrev pub any : (A → Bool) → List A → Bool
  any p [] = false
  any p (x ∷ xs) = p x || any p xs

  abbrev pub all : (A → Bool) → List A → Bool
  all p [] = true
  all p (x ∷ xs) = p x && all p xs

  -- The last item that passes: what a dict comprehension keeps for a repeated key.
  abbrev pub find_last : (A → Bool) → List A → Option A
  find_last p [] = none
  find_last p (x ∷ xs) = elim (find_last p xs) [
    | some y ↦ some y
    | none ↦ if p x then some x else none
  ]

  -- `next((x for x in xs if p(x)), None)`
  abbrev pub find : (A → Bool) → List A → Option A
  find p [] = none
  find p (x ∷ xs) = if p x then some x else find p xs

  -- Membership, as a family that hands over the item's place.
  pub data In (a : A) : List A → Type ℓ where
    head : {xs : List A} → In a (a ∷ xs)
    tail : {x : A} {xs : List A} → In a xs → In a (x ∷ xs)

  pub In-cons : {a x : A} {xs : List A} → In a (x ∷ xs) → (a ≡ x) ⊎ In a xs
  In-cons head = inl refl
  In-cons (tail m) = inr m

  pub length-append : (xs ys : List A) → length (xs ++ ys) ≡ length xs + length ys
  length-append [] ys = omega arith
  length-append (x ∷ xs) ys = omega (arith, length-append xs ys)

  pub length-keep-le : (p : A → Bool) (xs : List A) → length (keep p xs) ≤ length xs
  length-keep-le p [] = omega arith
  length-keep-le p (x ∷ xs) = ground (arith, length-keep-le p xs)

  pub In→any : (p : A → Bool) {a : A} {xs : List A} → In a xs → p a ≡ true → any p xs ≡ true
  In→any p head h = ground arith
  In→any p (tail {x} m) h = ground (arith, In→any p m h)

  pub any→In : (p : A → Bool) (xs : List A) → any p xs ≡ true → (a : A) × In a xs × (p a ≡ true)
  any→In p [] h = ground arith
  any→In p (x ∷ xs) h = elim (or-cases (p x) (any p xs) h) [
    | inl e ↦ (x, head, e)
    | inr e ↦ let (a, m, q) = any→In p xs e in (a, tail m, q)
  ]

  pub all→In : (p : A → Bool) {a : A} {xs : List A} → all p xs ≡ true → In a xs → p a ≡ true
  all→In p h head = ground arith
  all→In p h (tail {x} {xs} m) = all→In p (ground arith) m

  pub In→all : (p : A → Bool) (xs : List A) → ((a : A) → In a xs → p a ≡ true) → all p xs ≡ true
  In→all p [] h = refl
  In→all p (x ∷ xs) h = and_intro (p x) (all p xs) (h x head) (In→all p xs (λ a m. h a (tail m)))

  pub In-keep : (p : A → Bool) {a : A} {xs : List A} → In a xs → p a ≡ true → In a (keep p xs)
  In-keep p {a} (head {xs}) h = rw h head
  In-keep p {a} (tail {x} {xs} m) h = elim (Bool-cases (p x)) [
    | inl e ↦ rw e (tail (In-keep p m h))
    | inr e ↦ rw e (In-keep p m h)
  ]

  pub In-of_keep : (p : A → Bool) {a : A} (xs : List A) → In a (keep p xs) → In a xs × (p a ≡ true)
  In-of_keep p [] m = elim m [ ]
  In-of_keep p {a} (x ∷ xs) m = elim (Bool-cases (p x)) [
    | inl e ↦ elim (In-cons (rw e at m)) [
      | inl same ↦ (rw same head, rw same e)
      | inr later ↦ let (q, h) = In-of_keep p xs later in (tail q, h)
    ]
    | inr e ↦ let (q, h) = In-of_keep p xs (rw e at m) in (tail q, h)
  ]

module _ {ℓ κ} {A : Type ℓ} {B : Type κ} where
  pub In-map : (f : A → B) {a : A} {xs : List A} → In a xs → In (f a) (map f xs)
  In-map f head = head
  In-map f (tail m) = tail (In-map f m)

  pub In-of_map :
      (f : A → B) {b : B} (xs : List A) → In b (map f xs) → (a : A) × In a xs × (f a ≡ b)
  In-of_map f [] m = elim m [ ]
  In-of_map f (x ∷ xs) m = elim (In-cons m) [
    | inl e ↦ (x, head, sym e)
    | inr later ↦ let (a, n, e) = In-of_map f xs later in (a, tail n, e)
  ]

pub append-eq-nil {ℓ} : {A : Type ℓ} (xs ys : List A) → xs ++ ys ≡ [] → (xs ≡ []) × (ys ≡ [])
append-eq-nil [] ys e = (refl, e)
append-eq-nil (x ∷ xs) ys e = absurd (cc)

pub In-nil {ℓ} : {A : Type ℓ} {a : A} {xs : List A} → xs ≡ [] → In a xs → ⊥
In-nil {a} {xs} e m = elim (subst (λ l. In a l) e m) [ ]

pub nil_of_none {ℓ} : {A : Type ℓ} (xs : List A) → ((a : A) → In a xs → ⊥) → xs ≡ []
nil_of_none [] h = refl
nil_of_none (x ∷ xs) h = absurd (h x head)

-- `for x in xs: errors.extend(f(x))`
abbrev pub flat {ℓ κ} : {A : Type ℓ} {B : Type κ} → (A → List B) → List A → List B
flat f [] = []
flat f (x ∷ xs) = f x ++ flat f xs

module _ {ℓ κ} {A : Type ℓ} {B : Type κ} where
  pub flat-nil : (f : A → List B) (xs : List A) → flat f xs ≡ [] → (a : A) → In a xs → f a ≡ []
  flat-nil f [] e a m = elim m [ ]
  flat-nil f (x ∷ xs) e _ head = (append-eq-nil (f x) (flat f xs) e).0
  flat-nil f (x ∷ xs) e a (tail m) = flat-nil f xs (append-eq-nil (f x) (flat f xs) e).1 a m

  pub nil-flat : (f : A → List B) (xs : List A) → ((a : A) → In a xs → f a ≡ []) → flat f xs ≡ []
  nil-flat f [] h = refl
  nil-flat f (x ∷ xs) h = rw (h x head, nil-flat f xs (λ a m. h a (tail m)))

-- `if b: errors.append(x)`
abbrev pub report {ℓ} : {A : Type ℓ} → Bool → A → List A
report b x = if b then x ∷ [] else []

pub length-map {ℓ κ} :
    {A : Type ℓ} {B : Type κ} (f : A → B) (xs : List A) → length (map f xs) ≡ length xs
length-map f [] = refl
length-map f (x ∷ xs) = ap suc (length-map f xs)

module _ {ℓ} {A : Type ℓ} where
  abbrev pub take : ℕ → List A → List A
  take zero xs = []
  take (suc n) [] = []
  take (suc n) (x ∷ xs) = x ∷ take n xs

module _ {ℓ} {A : Type ℓ} where
  pub In-append_left : {a : A} {xs : List A} (ys : List A) → In a xs → In a (xs ++ ys)
  In-append_left ys head = head
  In-append_left ys (tail m) = tail (In-append_left ys m)

  pub In-append_right : {a : A} (xs : List A) {ys : List A} → In a ys → In a (xs ++ ys)
  In-append_right [] m = m
  In-append_right (x ∷ xs) m = tail (In-append_right xs m)

  pub In-append_cases : {a : A} (xs : List A) {ys : List A} → In a (xs ++ ys) → In a xs ⊎ In a ys
  In-append_cases [] m = inr m
  In-append_cases {a} (x ∷ xs) m = elim (In-cons m) [
    | inl e ↦ inl (subst (λ z. In z (x ∷ xs)) (sym e) head)
    | inr later ↦ elim (In-append_cases xs later) [ inl l ↦ inl (tail l) | inr r ↦ inr r ]
  ]

pub In-flat {ℓ κ} :
    {A : Type ℓ} {B : Type κ} (f : A → List B) {a : A} {xs : List A} {b : B}
    → In a xs
    → In b (f a)
    → In b (flat f xs)
In-flat f (head {xs}) m = In-append_left (flat f xs) m
In-flat f (tail {x} n) m = In-append_right (f x) (In-flat f n m)
