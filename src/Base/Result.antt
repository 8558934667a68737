-- ===== src/Base/Result.antt =====
-- A function that may raise returns a `Result`.
use mathlib.Core.Path.{◌≡◌, refl}
use mathlib.Core.Logic.{◌⊎◌, inl, inr}
use mathlib.Core.Bool.{Bool, true, false}
use native.Mathlib.Omega.{arith}

pub data Result (E A : Type 0) : Type 0 where
  ok : A → Result E A
  err : E → Result E A

module _ {E : Type 0} where
  -- `if test: raise e`
  abbrev pub raise_if : Bool → E → Result E (Unit {0})
  raise_if false e = ok tt
  raise_if true e = err e

  infixl 5 ◌>>=◌
  abbrev pub ◌>>=◌ : {A B : Type 0} → Result E A → (A → Result E B) → Result E B
  err e >>= next = err e
  ok a >>= next = next a

  infixl 5 ◌>>◌
  abbrev pub ◌>>◌ : {B : Type 0} → Result E (Unit {0}) → Result E B → Result E B
  first >> rest = first >>= λ _. rest

  pub >>=-eq-ok :
      {A B : Type 0} (r : Result E A) (next : A → Result E B) {b : B}
      → (r >>= next) ≡ ok b
      → (a : A) × (r ≡ ok a) × (next a ≡ ok b)
  >>=-eq-ok (err e) next h = absurd (cc)
  >>=-eq-ok (ok a) next h = (a, refl, h)

  pub raise_if-ok : (b : Bool) (e : E) → raise_if b e ≡ ok tt → b ≡ false
  raise_if-ok b e h = ground arith

  pub ok_injective : {A : Type 0} {a b : A} → ◌≡◌ {A = Result E A} (ok a) (ok b) → a ≡ b
  ok_injective h = cc

  -- What follows a test that passed.
  pub >>-eq-ok :
      {B : Type 0} (t : Bool) (e : E) (k : Result E B) {b : B}
      → (raise_if t e >> k) ≡ ok b
      → (t ≡ false) × (k ≡ ok b)
  >>-eq-ok true e k h = absurd (cc)
  >>-eq-ok false e k h = (refl, h)

  pub Result-cases :
      {A : Type 0} (r : Result E A) → ((a : A) × (r ≡ ok a)) ⊎ ((e : E) × (r ≡ err e))
  Result-cases (ok a) = inl (a, refl)
  Result-cases (err e) = inr (e, refl)
