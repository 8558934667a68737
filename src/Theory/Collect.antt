-- ===== src/Theory/Collect.antt =====
-- Loops of smeme/reasoning/theory whose body may raise.
use smeme.Base.{
  subst, In-cons, Option, none, some, List, [], ◌∷◌, ◌++◌, ◌≡◌, refl, In, head, tail,
  In-append_left, In-append_right, inl, inr,
}
use smeme.Theory.Guards.{◌>>=◌, collect}

pub >>=-eq-some {ℓ κ} :
    {A : Type ℓ} {B : Type κ} (m : Option A) (f : A → Option B) {b : B}
    → (m >>= f) ≡ some b
    → (a : A) × (m ≡ some a) × (f a ≡ some b)
>>=-eq-some none f h = absurd (cc)
>>=-eq-some (some a) f h = (a, refl, h)

module _ {A B : Type 0} (f : A → Option (List B)) where
  -- What an item contributes is in the result.
  pub collect-In :
      (xs : List A) (ys : List B) {x : A}
      → collect f xs ≡ some ys
      → In x xs
      → (zs : List B) × (f x ≡ some zs) × ((b : B) → In b zs → In b ys)
  collect-In [] ys h m = elim m [ ]
  collect-In (x ∷ xs) ys h m =
      let (us, e, h') = >>=-eq-some (f x) _ h in
      let (vs, e', h'') = >>=-eq-some (collect f xs) _ h' in
      let same : us ++ vs ≡ ys = cc in
      elim (In-cons m) [
        | inl q ↦ (us, rw q e, λ b n. subst (λ l. In b l) same (In-append_left vs n))
        | inr later ↦
            let (zs, r, k) = collect-In xs vs e' later in
            (zs, r, λ b n. subst (λ l. In b l) same (In-append_right us (k b n)))
      ]

  -- The loop returns if its body does on every item.
  pub collect-total :
      (xs : List A)
      → ((x : A) → In x xs → (zs : List B) × (f x ≡ some zs))
      → (ys : List B) × (collect f xs ≡ some ys)
  collect-total [] h = ([], refl)
  collect-total (x ∷ xs) h =
      let (zs, e) = h x head in
      let (ys, r) = collect-total xs (λ y m. h y (tail m)) in (zs ++ ys, rw (e, r) refl)
