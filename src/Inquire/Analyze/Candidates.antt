-- ===== src/Inquire/Analyze/Candidates.antt =====
-- The candidates of the search of smeme/reasoning/runtime/inquire/resolvable.py.
use smeme.Base.{
  ℕ, zero, suc, ◌-◌, ◌≤◌, Text, text_leb, ◌≡◌, ◌≢◌, refl, sym, subst, ap, ◌∙◌, inl, inr, List, [],
  ◌∷◌, map, flat, length, In, head, tail, In-cons, In-of_map, In-append_cases, Bool-cases, arith,
}
use smeme.Inquire.Types.{Evidence}
use smeme.Inquire.Resolvable.{
  combinations, assignments, range_from, least, least_question, candidates,
}

combinations-part :
    {A : Type 0} (k : ℕ) (xs c : List A)
    → In c (combinations k xs)
    → (length c ≡ k) × ((x : A) → In x c → In x xs)
unfolding combinations
combinations-part zero xs c m = elim (In-cons m) [
  | inl e ↦ rw e (refl, λ x i. elim i [ ])
  | inr gone ↦ elim gone [ ]
]
combinations-part (suc k) [] c m = elim m [ ]
combinations-part (suc k) (x ∷ xs) c m =
    elim (In-append_cases (map (λ d. x ∷ d) (combinations k xs)) m) [
      | inl taken ↦
          let (d, i, e) = In-of_map (λ d. x ∷ d) (combinations k xs) taken in
          let (len, inside) = combinations-part k xs d i in
          subst (λ z. (length z ≡ suc k) × ((y : _) → In y z → In y (x ∷ xs))) e
            (
              ap suc len,
              λ y j. elim (In-cons j) [
                | inl s ↦ subst (λ z. In z (x ∷ xs)) (sym s) head
                | inr later ↦ tail (inside y later)
              ],
            )
      | inr left ↦
          let (len, inside) = combinations-part (suc k) xs c left in (len, λ y j. tail (inside y j))
    ]

In-of_flat :
    {A B : Type 0} (f : A → List B) (xs : List A) (b : B)
    → In b (flat f xs)
    → (a : A) × In a xs × In b (f a)
In-of_flat f [] b m = elim m [ ]
In-of_flat f (x ∷ xs) b m = elim (In-append_cases (f x) m) [
  | inl here ↦ (x, head, here)
  | inr later ↦ let (a, i, j) = In-of_flat f xs b later in (a, tail i, j)
]

assignments-keys :
    (options : Text → List Text) (qs : List Text) (alpha : Evidence)
    → In alpha (assignments options qs)
    → map (λ (k, _). k) alpha ≡ qs
unfolding assignments
assignments-keys options [] alpha m = elim (In-cons m) [
  | inl e ↦ rw e refl
  | inr gone ↦ elim gone [ ]
]
assignments-keys options (q ∷ qs) alpha m =
    let (a, _, i) =
      In-of_flat (λ a. map (λ rest. (q, a) ∷ rest) (assignments options qs)) (options q) alpha m in
    let (rest, j, e) = In-of_map (λ rest. (q, a) ∷ rest) (assignments options qs) i in
    ap (map (λ (k, _). k)) (sym e) ∙ ap (λ l. q ∷ l) (assignments-keys options qs rest j)

range_from-le : (first n x : ℕ) → In x (range_from first n) → first ≤ x
unfolding range_from
range_from-le first zero x m = elim m [ ]
range_from-le first (suc n) x m = elim (In-cons m) [
  | inl e ↦ omega arith
  | inr later ↦ omega (arith, range_from-le (suc first) n x later)
]

least-In : (q : Text) (qs : List Text) → In (least q qs) (q ∷ qs)
unfolding least
least-In q [] = head
least-In q (r ∷ rs) = elim (Bool-cases (text_leb q r)) [
  | inl e ↦ rw e (widen (least-In q rs))
  | inr e ↦ rw e (tail (least-In r rs))
]
  where
    widen : {x : Text} → In x (q ∷ rs) → In x (q ∷ r ∷ rs)
    widen head = head
    widen (tail m) = tail (tail m)

least_question-In :
    (alpha : Evidence)
    → length (map (λ (k, _). k) alpha) ≢ 0
    → In (least_question alpha) (map (λ (k, _). k) alpha)
unfolding least_question
least_question-In [] h = absurd (h refl)
least_question-In ((q, a) ∷ alpha) h = least-In q (map (λ (k, _). k) alpha)

-- The question of a candidate is one of those that remain.
pub candidates-question :
    (options : Text → List Text) (remaining : List Text) (alpha : Evidence)
    → In alpha (candidates options remaining)
    → In (least_question alpha) remaining
unfolding candidates
candidates-question options remaining alpha m =
    let (width, i, j) =
      In-of_flat (λ width. flat (assignments options) (combinations width remaining))
        (range_from 2 (length remaining - 1)) alpha m in
    let (c, l, o) = In-of_flat (assignments options) (combinations width remaining) alpha j in
    let (len, inside) = combinations-part width remaining c l in
    let keys = assignments-keys options c alpha o in
    let wide = range_from-le 2 (length remaining - 1) width i in
    inside (least_question alpha) (
      subst (In (least_question alpha)) keys
        (least_question-In alpha (λ z. absurd (omega (arith, ap length keys)))))
