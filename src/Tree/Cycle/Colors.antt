-- ===== src/Tree/Cycle/Colors.antt =====
-- `has_cycle` of smeme/decision_tree/helpers/validation.py beside the search of
-- smeme/reasoning/ir/validate.py: two sets for three colours.
use std.Path.{fun_ext}
use smeme.Base.{
  ℕ, zero, suc, Text, ◌==◌, eq_iff, eq_refl, mem, is_nil, true, false, not, if◌then◌else◌, ◌≡◌, ◌≢◌,
  refl, sym, ap, ◌∙◌, List, [], ◌∷◌, keep, Bool-cases, arith, inl, inr,
}
use smeme.Ir.Dag.{
  Color, unseen, visiting, done, State, Frame, update, Outcome, finished, cycle_found, out_of_fuel,
  dfs_loop, dfs, dfs_all,
}
use smeme.Tree.Cycle.{
  CycleState, set_parent, enter, leave, CycleOutcome, exhausted, back_to, stuck, CycleReport,
  no_cycle, cycle_detected, unfinished, cycle_loop, cycle_dfs, cycle_all, cycle_path,
}

-- The colour of a node, from the two sets.
unfoldable pub color : CycleState → State
color s k = if mem k s.visited then (if mem k s.rec_stack then visiting else done) else unseen

pub mem-removed :
    (u k : Text) (xs : List Text)
    → mem k (keep (λ j. not (j == u)) xs) ≡ (if u == k then false else mem k xs)
mem-removed u k [] = ground arith
mem-removed u k (x ∷ xs) = ground (arith, mem-removed u k xs, eq_iff u k, eq_iff x u, eq_iff x k)

color-enter :
    (s : CycleState) (v u : Text) → color (enter (set_parent s v u) v) ≡ update (color s) v visiting
unfolding color enter set_parent update
color-enter s v u = fun_ext (λ k. ground arith)

color-start : (s : CycleState) (v : Text) → color (enter s v) ≡ update (color s) v visiting
unfolding color enter update
color-start s v = fun_ext (λ k. ground arith)

color-leave :
    (s : CycleState) (u : Text)
    → mem u s.visited ≡ true
    → color (leave s u) ≡ update (color s) u done
unfolding color leave update
color-leave s u h = fun_ext (λ k. ground (arith, mem-removed u k s.rec_stack, eq_iff u k))

color-unseen : (s : CycleState) (v : Text) → mem v s.visited ≡ false → color s v ≡ unseen
unfolding color
color-unseen s v h = ground arith

color-visiting :
    (s : CycleState) (v : Text)
    → mem v s.visited ≡ true
    → mem v s.rec_stack ≡ true
    → color s v ≡ visiting
unfolding color
color-visiting s v h k = ground arith

color-done :
    (s : CycleState) (v : Text)
    → mem v s.visited ≡ true
    → mem v s.rec_stack ≡ false
    → color s v ≡ done
unfolding color
color-done s v h k = ground arith

color-not_unseen : (s : CycleState) (v : Text) → mem v s.visited ≡ true → color s v ≢ unseen
unfolding color
color-not_unseen s v h = λ e. ground arith

still_visited :
    (s : CycleState) (u k : Text) → mem k s.visited ≡ true → mem k (leave s u).visited ≡ true
unfolding leave
still_visited s u k h = h

start_visited : (s : CycleState) (start : Text) → mem start (enter s start).visited ≡ true
unfolding enter
start_visited s start = ground (arith, eq_refl start)

-- How the search with two sets ends, in the words of the search with colours.
abbrev outcome_of : CycleOutcome → Outcome
outcome_of (exhausted s) = finished (color s)
outcome_of (back_to v s) = cycle_found
outcome_of stuck = out_of_fuel

abbrev pub Agrees : CycleReport → Outcome → Type 0
Agrees no_cycle (finished _) = Unit
Agrees (cycle_detected _) cycle_found = Unit
Agrees unfinished out_of_fuel = Unit
Agrees _ _ = ⊥

-- The nodes of the stack have been entered, and no successor that is still to be read is empty.
abbrev Entered : CycleState → List Frame → Type 0
Entered s [] = Unit
Entered s ((u, vs) ∷ rest) = (mem u s.visited ≡ true) × (mem [] vs ≡ false) × Entered s rest

Entered-mono :
    (s t : CycleState) (frames : List Frame)
    → ((k : Text) → mem k s.visited ≡ true → mem k t.visited ≡ true)
    → Entered s frames
    → Entered t frames
Entered-mono s t [] keeps e = tt
Entered-mono s t ((u, vs) ∷ rest) keeps (a, b, e) = (keeps u a, b, Entered-mono s t rest keeps e)

-- A cycle is found at a node that is not empty.
abbrev Named : CycleOutcome → Type 0
Named (back_to v _) = is_nil v ≡ false
Named _ = Unit

head_named : (v : Text) (vs : List Text) → mem [] (v ∷ vs) ≡ false → is_nil v ≡ false
head_named [] vs h = absurd (ground (arith, eq_refl []))
head_named (c ∷ v) vs h = refl

module _ (adj : Text → List Text) (named : (u : Text) → mem [] (adj u) ≡ false) where
  Entered-push :
      (s : CycleState) (u v : Text) (vs : List Text) (rest : List Frame)
      → Entered s ((u, v ∷ vs) ∷ rest)
      → Entered (enter (set_parent s v u) v) ((v, adj v) ∷ (u, vs) ∷ rest)
  unfolding enter set_parent
  Entered-push s u v vs rest (a, b, e) = (
    ground (arith, eq_refl v),
    named v,
    (
      ground arith,
      ground arith,
      Entered-mono s (enter (set_parent s v u) v) rest (λ k h. ground arith) e,
    ),
  )

  loop-dfs_loop :
      (fuel : ℕ) (s : CycleState) (frames : List Frame)
      → Entered s frames
      → (outcome_of (cycle_loop adj fuel s frames) ≡ dfs_loop adj fuel (color s) frames)
        × Named (cycle_loop adj fuel s frames)
  unfolding cycle_loop dfs_loop
  loop-dfs_loop zero s frames e = (refl, tt)
  loop-dfs_loop (suc fuel) s [] e = (refl, tt)
  loop-dfs_loop (suc fuel) s ((u, []) ∷ rest) (a, b, e) =
      let (same, n) =
        loop-dfs_loop fuel (leave s u) rest
          (Entered-mono s (leave s u) rest (still_visited s u) e) in
      (same ∙ ap (λ st. dfs_loop adj fuel st rest) (color-leave s u a), n)
  loop-dfs_loop (suc fuel) s ((u, v ∷ vs) ∷ rest) (a, b, e) = elim (Bool-cases (mem v s.visited)) [
    | inl old ↦ elim (Bool-cases (mem v s.rec_stack)) [
      | inl on ↦
          rw (cycle_loop, dfs_loop, old, on, color-visiting s v old on) (refl, head_named v vs b)
      | inr off ↦
          rw (cycle_loop, dfs_loop, old, off, color-done s v old off)
            (loop-dfs_loop fuel s ((u, vs) ∷ rest) (a, ground arith, e))
    ]
    | inr new ↦
        let (same, n) =
          loop-dfs_loop fuel (enter (set_parent s v u) v) ((v, adj v) ∷ (u, vs) ∷ rest)
            (Entered-push s u v vs rest (a, b, e)) in
        rw (cycle_loop, dfs_loop, new, color-unseen s v new)
          (
            same
                ∙ ap (λ st. dfs_loop adj fuel st ((v, adj v) ∷ (u, vs) ∷ rest)) (color-enter s v u),
            n,
          )
  ]

  dfs_agrees :
      (fuel : ℕ) (s : CycleState) (start : Text)
      → (outcome_of (cycle_dfs adj fuel s start) ≡ dfs adj fuel (color s) start)
        × Named (cycle_dfs adj fuel s start)
  unfolding cycle_dfs dfs
  dfs_agrees fuel s start =
      let (same, n) =
        loop-dfs_loop fuel (enter s start) ((start, adj start) ∷ [])
          (start_visited s start, named start, tt) in
      (same ∙ ap (λ st. dfs_loop adj fuel st ((start, adj start) ∷ [])) (color-start s start), n)

  -- The search with two sets agrees with the search with three colours.
  pub all-Agrees :
      (fuel : ℕ) (s : CycleState) (ids : List Text)
      → Agrees (cycle_all adj fuel s ids) (dfs_all adj fuel (color s) ids)
  unfolding cycle_all dfs_all
  all-Agrees fuel s [] = tt
  all-Agrees fuel s (id ∷ rest) = elim (Bool-cases (mem id s.visited)) [
    | inl old ↦
        rw (cycle_all, dfs_all, old)
          (seen (color s id) (color-not_unseen s id old) (all-Agrees fuel s rest))
    | inr new ↦
        rw (cycle_all, dfs_all, new, color-unseen s id new)
          (entered (λ t. all-Agrees fuel t rest) (cycle_dfs adj fuel s id)
            (dfs adj fuel (color s) id) (dfs_agrees fuel s id))
  ]
    where
      after_outcome : Outcome → Outcome
      after_outcome o = elim o [ finished st ↦ dfs_all adj fuel st rest | other ↦ other ]

      seen :
          (c : Color)
          → c ≢ unseen
          → Agrees (cycle_all adj fuel s rest) (dfs_all adj fuel (color s) rest)
          → Agrees (cycle_all adj fuel s rest) (elim c [
            | unseen ↦ after_outcome (dfs adj fuel (color s) id)
            | _ ↦ dfs_all adj fuel (color s) rest
          ])
      seen unseen h ih = absurd (h refl)
      seen visiting h ih = ih
      seen done h ih = ih

      entered :
          ((t : CycleState) → Agrees (cycle_all adj fuel t rest) (dfs_all adj fuel (color t) rest))
          → (r : CycleOutcome) (o : Outcome) → (outcome_of r ≡ o) × Named r
          → Agrees
              (elim r [
                | exhausted after ↦ cycle_all adj fuel after rest
                | back_to v after ↦ elim (is_nil v) [
                  | true ↦ cycle_all adj fuel after rest
                  | false ↦ cycle_detected (cycle_path after v)
                ]
                | stuck ↦ unfinished
              ])
              (after_outcome o)
      entered ih (exhausted after) o (same, n) = rw (sym same) (ih after)
      entered ih (back_to v after) o (same, n) = rw (sym same, n) tt
      entered ih stuck o (same, n) = rw (sym same) tt
