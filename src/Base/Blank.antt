-- ===== src/Base/Blank.antt =====
-- What `strip` leaves of a text, by its characters that are no white space.
use Prim.Native.Nat.{ℕ}
use mathlib.Core.Path.{◌≡◌, refl, sym, ap, ◌∙◌}
use mathlib.Core.Bool.{Bool, false, ◌&&◌}
use mathlib.Core.List.{List, [], ◌∷◌, ◌++◌, reverse, reverse-cons}
use mathlib.Core.Logic.{inl, inr}
use native.Mathlib.Omega.{arith}
use smeme.Base.Tests.{Bool-cases}
use smeme.Base.Lists.{all}
use smeme.Base.Strings.{Text, is_space, lstrip, strip, is_nil, is_blank}

pub all-append {ℓ} :
    {A : Type ℓ} (p : A → Bool) (xs ys : List A) → all p (xs ++ ys) ≡ (all p xs && all p ys)
all-append p [] ys = refl
all-append p (x ∷ xs) ys = ground (arith, all-append p xs ys)

all-reverse {ℓ} : {A : Type ℓ} (p : A → Bool) (xs : List A) → all p (reverse xs) ≡ all p xs
all-reverse p [] = refl
all-reverse p (x ∷ xs) =
    ap (all p) (reverse-cons x xs)
    ∙ all-append p (reverse xs) (x ∷ [])
    ∙ ground (arith, all-reverse p xs)

unstripped : {c : ℕ} {s : Text} → is_space c ≡ false → lstrip (c ∷ s) ≡ c ∷ s
unfolding lstrip
unstripped e = rw e refl

all-lstrip : (s : Text) → all is_space (lstrip s) ≡ all is_space s
unfolding lstrip
all-lstrip [] = refl
all-lstrip (c ∷ s) = elim (Bool-cases (is_space c)) [
  | inl e ↦ rw e (all-lstrip s)
  | inr e ↦ ap (all is_space) (unstripped e)
]

is_nil-lstrip : (s : Text) → is_nil (lstrip s) ≡ all is_space s
unfolding lstrip
is_nil-lstrip [] = refl
is_nil-lstrip (c ∷ s) = elim (Bool-cases (is_space c)) [
  | inl e ↦ rw e (is_nil-lstrip s)
  | inr e ↦ rw e refl
]

is_nil-concat {ℓ} : {A : Type ℓ} (ys : List A) (x : A) → is_nil (ys ++ x ∷ []) ≡ false
is_nil-concat [] x = refl
is_nil-concat (y ∷ ys) x = refl

is_nil-reverse {ℓ} : {A : Type ℓ} (xs : List A) → is_nil (reverse xs) ≡ is_nil xs
is_nil-reverse [] = refl
is_nil-reverse (x ∷ xs) = ap is_nil (reverse-cons x xs) ∙ is_nil-concat (reverse xs) x

all-strip : (s : Text) → all is_space (strip s) ≡ all is_space s
unfolding strip
all-strip s =
    all-reverse is_space (lstrip (reverse (lstrip s)))
    ∙ all-lstrip (reverse (lstrip s))
    ∙ all-reverse is_space (lstrip s)
    ∙ all-lstrip s

-- A text is blank if all of it is white space.
pub is_blank-all : (s : Text) → is_blank s ≡ all is_space s
unfolding is_blank strip
is_blank-all s =
    is_nil-reverse (lstrip (reverse (lstrip s)))
    ∙ is_nil-lstrip (reverse (lstrip s))
    ∙ all-reverse is_space (lstrip s)
    ∙ all-lstrip s

-- What is left after `strip` is blank only if it is empty.
pub is_blank-strip : (s : Text) → is_blank (strip s) ≡ is_nil (strip s)
unfolding is_blank
is_blank-strip s = is_blank-all (strip s) ∙ all-strip s ∙ sym (is_blank-all s)
