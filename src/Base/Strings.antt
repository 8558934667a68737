-- ===== src/Base/Strings.antt =====
-- Python's `str` as the list of its code points: equality, order, `strip`.
use Prim.Native.Nat.{ℕ}
use Prim.Native.Char.{code}
use Prim.Native.String.{String}
use mathlib.Core.Path.{◌≡◌, refl}
use mathlib.Core.Logic.{◌↔◌}
use mathlib.Core.Bool.{Bool, true, false, ◌&&◌, ◌||◌}
use mathlib.Core.List.{List, [], ◌∷◌, reverse}
use native.Mathlib.Omega.{arith}
use mathlib.Core.Path.{subst}
use smeme.Base.Lists.{any, In, any→In, In→any}
use smeme.Base.Tests.{ltb, leb, nat_beq, if◌then◌else◌}

abbrev pub Text : Type 0
Text = List ℕ

-- The code points of a literal.
abbrev pub codes : String → Text
codes String.[] = []
codes (String.◌∷◌ c s) = code c ∷ codes s

infix 50 ◌==◌
unfoldable pub ◌==◌ : Text → Text → Bool
[] == [] = true
(x ∷ xs) == (y ∷ ys) = nat_beq x y && xs == ys
_ == _ = false

pub ==→eq : (a b : Text) → (a == b) ≡ true → a ≡ b
unfolding ◌==◌
==→eq [] [] h = refl
==→eq [] (y ∷ ys) h = ground arith
==→eq (x ∷ xs) [] h = ground arith
==→eq (x ∷ xs) (y ∷ ys) h = ground (arith, ==→eq xs ys)

pub eq_refl : (a : Text) → (a == a) ≡ true
unfolding ◌==◌
eq_refl [] = refl
eq_refl (x ∷ xs) = ground (arith, eq_refl xs)

pub eq_iff : (a b : Text) → ((a == b) ≡ true) ↔ (a ≡ b)
eq_iff a b = (==→eq a b, λ e. rw e (eq_refl b))

-- Comparison of code points, as Python's `<` on `str`.
unfoldable pub text_leb : Text → Text → Bool
text_leb [] _ = true
text_leb (x ∷ xs) [] = false
text_leb (x ∷ xs) (y ∷ ys) = ltb x y || nat_beq x y && text_leb xs ys

-- The code points that `str.strip` removes.
unfoldable pub is_space : ℕ → Bool
is_space c =
    leb 9 c && leb c 13
    || leb 28 c && leb c 32
    || nat_beq c 133
    || nat_beq c 160
    || nat_beq c 5760
    || leb 8192 c && leb c 8202
    || leb 8232 c && leb c 8233
    || nat_beq c 8239
    || nat_beq c 8287
    || nat_beq c 12288

unfoldable pub lstrip : Text → Text
lstrip [] = []
lstrip (c ∷ s) = if is_space c then lstrip s else c ∷ s

unfoldable pub strip : Text → Text
unfolding lstrip is_space
strip s = reverse (lstrip (reverse (lstrip s)))

abbrev pub is_nil {ℓ} : {A : Type ℓ} → List A → Bool
is_nil [] = true
is_nil (_ ∷ _) = false

pub nil_of_is_nil {ℓ} : {A : Type ℓ} (xs : List A) → is_nil xs ≡ true → xs ≡ []
nil_of_is_nil [] h = refl
nil_of_is_nil (x ∷ xs) h = absurd (cc)

-- `not s.strip()`
unfoldable pub is_blank : Text → Bool
unfolding strip
is_blank s = is_nil (strip s)

-- `a in xs`, for a list or a set of texts
abbrev pub mem : Text → List Text → Bool
mem a xs = any (λ x. x == a) xs

pub mem→In : (a : Text) (xs : List Text) → mem a xs ≡ true → In a xs
mem→In a xs h = let (x, m, e) = any→In (λ x. x == a) xs h in subst (λ y. In y xs) (==→eq x a e) m

pub In→mem : {a : Text} {xs : List Text} → In a xs → mem a xs ≡ true
In→mem {a} m = In→any (λ x. x == a) m (eq_refl a)

-- The items of a set that is filled in order; `seen` holds what is already in it.
unfoldable pub distinct : List Text → List Text → List Text
distinct seen [] = []
distinct seen (x ∷ xs) = if mem x seen then distinct seen xs else x ∷ distinct (x ∷ seen) xs

-- No text stands twice.
abbrev pub Distinct : List Text → Type 0
Distinct [] = Unit
Distinct (x ∷ xs) = (mem x xs ≡ false) × Distinct xs

pub mem-distinct :
    (a : Text) (seen xs : List Text)
    → (mem a seen || mem a (distinct seen xs)) ≡ (mem a seen || mem a xs)
unfolding distinct
mem-distinct a seen [] = refl
mem-distinct a seen (x ∷ xs) =
    ground (arith, mem-distinct a seen xs, mem-distinct a (x ∷ seen) xs, eq_iff x a)

-- The set of the items of a list has the list's members.
pub mem-distinct_nil : (a : Text) (xs : List Text) → mem a (distinct [] xs) ≡ mem a xs
mem-distinct_nil a xs = mem-distinct a [] xs
