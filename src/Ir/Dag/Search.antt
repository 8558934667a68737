-- ===== src/Ir/Dag/Search.antt =====
-- The depth-first search `dfs` of smeme/reasoning/ir/validate.py: what its outcomes say.
use mathlib.Core.WellFounded.{Acc, WellFounded}
use smeme.Base.{
  ℕ, zero, suc, ◌+◌, ◌≤◌, ◌<◌, Text, mem, eq_iff, eq_refl, ◌≡◌, ◌≢◌, refl, sym, subst, ◌⊎◌, inl,
  inr, true, none, List, [], ◌∷◌, length, Bool-cases, In, head, tail, In-cons, arith,
}
use smeme.Ir.Dag.{
  Color, unseen, visiting, done, State, Frame, update, Outcome, finished, cycle_found, out_of_fuel,
  dfs_loop, dfs, dfs_all, dfs_fuel, all_unseen,
}
use smeme.Ir.Dag.Walk.{Child, Walk, arc, more}
use smeme.Ir.Dag.Invariant.{
  Inv, OnStack, top, Linked, Linked-Walk, Inv-pop, Inv-push, Inv-skip, update_not_unseen,
  update_cases, update_same,
}

pub Color-cases : (c : Color) → (c ≡ unseen) ⊎ (c ≡ visiting) ⊎ (c ≡ done)
Color-cases unseen = inl refl
Color-cases visiting = inr (inl refl)
Color-cases done = inr (inr refl)

abbrev fresh : Color → ℕ → ℕ
fresh unseen n = n
fresh _ n = 0

module _ (adj : Text → List Text) where
  -- Steps still owed to unseen nodes, and to the stack.
  unfoldable pub owed : State → List Text → ℕ
  owed st [] = 0
  owed st (n ∷ ns) = fresh (st n) (suc (length (adj n))) + owed st ns

  unfoldable pub pending : List Frame → ℕ
  pending [] = 0
  pending ((u, vs) ∷ rest) = suc (length vs) + pending rest

  pub owed-le :
      (st : State) (k : Text) (c : Color) (ns : List Text)
      → c ≢ unseen
      → owed (update st k c) ns ≤ owed st ns
  unfolding owed update
  owed-le st k c [] h = omega arith
  owed-le st k c (n ∷ ns) h = ground (arith, owed-le st k c ns h)

  pub owed-visit :
      (st : State) (v : Text) (ns : List Text)
      → st v ≡ unseen
      → mem v ns ≡ true
      → owed (update st v visiting) ns + suc (length (adj v)) ≤ owed st ns
  unfolding owed update
  owed-visit st v [] u m = ground arith
  owed-visit st v (n ∷ ns) u m =
      ground (arith, owed-visit st v ns u, eq_iff n v, eq_iff v n, owed-le st v visiting ns)

  pub owed-le_total : (st : State) (ns : List Text) → owed st ns ≤ owed all_unseen ns
  unfolding owed
  owed-le_total st [] = omega arith
  owed-le_total st (n ∷ ns) = ground (arith, owed-le_total st ns)

  owed-fuel : (ns : List Text) → suc (owed all_unseen ns) ≡ dfs_fuel adj ns
  unfolding owed dfs_fuel
  owed-fuel [] = refl
  owed-fuel (n ∷ ns) = omega (arith, owed-fuel ns)

-- What an outcome says of the graph.
module _ (adj : Text → List Text) where
  abbrev pub Verdict : Outcome → Type 0
  Verdict (finished _) = WellFounded (Child adj)
  Verdict cycle_found = (u : Text) × Walk adj u u
  Verdict out_of_fuel = ⊥

-- What the search owes its caller: it has not run out of fuel, a cycle is a closed walk, and a
-- finished search has kept the invariant and what was coloured.
module _ (adj : Text → List Text) (ids : List Text) where
  abbrev Post : State → Outcome → Type 0
  Post st (finished st') = Inv adj st' [] × ((u : Text) → st u ≢ unseen → st' u ≢ unseen)
  Post st cycle_found = (u : Text) × Walk adj u u
  Post st out_of_fuel = ⊥

  Post-trans :
      (st st' : State) (o : Outcome)
      → ((u : Text) → st u ≢ unseen → st' u ≢ unseen)
      → Post st' o
      → Post st o
  Post-trans st st' (finished s) keeps p = (p.0, λ u h. p.1 u (keeps u h))
  Post-trans st st' cycle_found keeps p = p
  Post-trans st st' out_of_fuel keeps p = p

  closed-Walk :
      (u v : Text) (vs : List Text) (rest : List Frame)
      → Linked adj none ((u, v ∷ vs) ∷ rest)
      → OnStack v ((u, v ∷ vs) ∷ rest)
      → (w : Text) × Walk adj w w
  closed-Walk u v vs rest l m =
      let step : Child adj v u = l.0 v (ground (arith, eq_refl v)) in
      elim (Linked-Walk adj u (v ∷ vs) rest none l m) [
        | inl e ↦ (u, arc (rw e at step))
        | inr r ↦ (v, more r step)
      ]

  module _ (known : (u w : Text) → Child adj w u → mem w ids ≡ true) where
    dfs_loop_lem :
        (fuel : ℕ) (st : State) (frames : List Frame)
        → owed adj st ids + pending adj frames < fuel
        → Inv adj st frames
        → Post st (dfs_loop adj fuel st frames)
    unfolding dfs_loop pending
    dfs_loop_lem zero st frames h inv = elim h [ ]
    dfs_loop_lem (suc fuel) st [] h inv = (inv, λ u n. n)
    dfs_loop_lem (suc fuel) st ((u, []) ∷ rest) h inv =
        Post-trans st (update st u done) _ (λ w n. update_not_unseen st u w done (λ e. cc) n)
          (dfs_loop_lem fuel (update st u done) rest
            (omega (arith, owed-le adj st u done ids (λ e. cc))) (Inv-pop adj st u rest inv))
    dfs_loop_lem (suc fuel) st ((u, v ∷ vs) ∷ rest) h inv = elim (Color-cases (st v)) [
      | inl e ↦
          rw (e, dfs_loop)
            (Post-trans st (update st v visiting) _
              (λ w n. update_not_unseen st v w visiting (λ x. cc) n)
              (dfs_loop_lem fuel (update st v visiting) ((v, adj v) ∷ (u, vs) ∷ rest)
                (omega (
                  arith,
                  owed-visit adj st v ids e
                      (known u v (inv.linked.0 v (ground (arith, eq_refl v)))),
                ))
                (Inv-push adj st u v vs rest e inv)))
      | inr (inl e) ↦ rw (e, dfs_loop) (closed-Walk u v vs rest inv.linked (inv.on_stack v e))
      | inr (inr e) ↦
          rw (e, dfs_loop)
            (dfs_loop_lem fuel st ((u, vs) ∷ rest) (omega arith)
              (Inv-skip adj st u v vs rest e inv))
    ]

    Inv-start :
        (st : State) (n : Text)
        → Inv adj st []
        → st n ≡ unseen
        → Inv adj (update st n visiting) ((n, adj n) ∷ [])
    Inv-start st n inv new = record {
      closed = λ w d. elim (update_cases st n w visiting) [
        | inl e ↦ absurd (cc (update_same st n visiting))
        | inr same ↦ inv.closed w (cc)
      ];
      on_stack = λ w h. elim (update_cases st n w visiting) [
        | inl e ↦ subst (λ x. OnStack x ((n, adj n) ∷ [])) e top
        | inr same ↦ absurd (elim (inv.on_stack w (cc)) [ ])
      ];
      covered = (λ w c. inl c, tt);
      linked = (λ w m. m, λ w e. absurd (cc), tt);
    }

    -- Started from an unseen node, the search colours that node too.
    dfs_lem :
        (fuel : ℕ) (st : State) (n : Text)
        → owed adj st ids < fuel
        → mem n ids ≡ true
        → st n ≡ unseen
        → Inv adj st []
        → Post (update st n visiting) (dfs adj fuel st n)
    unfolding dfs pending
    dfs_lem fuel st n h m new inv =
        dfs_loop_lem fuel (update st n visiting) ((n, adj n) ∷ [])
          (omega (arith, owed-visit adj st n ids new m)) (Inv-start st n inv new)

    abbrev Seen : List Text → Outcome → Type 0
    Seen ns (finished st) = (u : Text) → In u ns → st u ≢ unseen
    Seen ns other = Unit

    Seen-cons :
        (n : Text) (ns : List Text) (st : State) (o : Outcome)
        → st n ≢ unseen
        → Post st o
        → Seen ns o
        → Seen (n ∷ ns) o
    Seen-cons n ns st (finished s) h p q = λ u m. elim (In-cons m) [
      | inl e ↦ subst (λ x. s x ≢ unseen) (sym e) (p.1 n h)
      | inr later ↦ q u later
    ]
    Seen-cons n ns st _ h p q = tt

    -- The rest of the loop, once the state after `n` is known.
    dfs_all_cons :
        (fuel : ℕ) (st st' : State) (n : Text) (ns : List Text)
        → ((u : Text) → st u ≢ unseen → st' u ≢ unseen)
        → st' n ≢ unseen
        → Post st' (dfs_all adj fuel st' ns) × Seen ns (dfs_all adj fuel st' ns)
        → Post st (dfs_all adj fuel st' ns) × Seen (n ∷ ns) (dfs_all adj fuel st' ns)
    dfs_all_cons fuel st st' n ns keeps seen (p, q) =
        (Post-trans st st' _ keeps p, Seen-cons n ns st' _ seen p q)

    dfs_all_lem :
        (fuel : ℕ) (st : State) (ns : List Text)
        → owed adj all_unseen ids < fuel
        → ((u : Text) → In u ns → mem u ids ≡ true)
        → Inv adj st []
        → Post st (dfs_all adj fuel st ns) × Seen ns (dfs_all adj fuel st ns)
    unfolding dfs_all
    dfs_all_lem fuel st [] h k inv = ((inv, λ u n. n), λ u m. elim m [ ])
    dfs_all_lem fuel st (n ∷ ns) h k inv = elim (Color-cases (st n)) [
      | inl new ↦
          rw (new, dfs_all)
            (entered (dfs adj fuel st n)
              (dfs_lem fuel st n (omega (arith, owed-le_total adj st ids)) (k n head) new inv)
              (λ st' inv'. dfs_all_lem fuel st' ns h (λ u m. k u (tail m)) inv'))
      | inr (inl e) ↦
          rw (e, dfs_all)
            (dfs_all_cons fuel st st n ns (λ u x. x) (λ x. cc)
              (dfs_all_lem fuel st ns h (λ u m. k u (tail m)) inv))
      | inr (inr e) ↦
          rw (e, dfs_all)
            (dfs_all_cons fuel st st n ns (λ u x. x) (λ x. cc)
              (dfs_all_lem fuel st ns h (λ u m. k u (tail m)) inv))
    ]
      where
        after : Outcome → Outcome
        after o = elim o [ finished st' ↦ dfs_all adj fuel st' ns | other ↦ other ]

        entered :
            (o : Outcome)
            → Post (update st n visiting) o
            → ((st' : State)
                → Inv adj st' []
                → Post st' (dfs_all adj fuel st' ns) × Seen ns (dfs_all adj fuel st' ns))
            → Post st (after o) × Seen (n ∷ ns) (after o)
        entered (finished st') p ih =
            dfs_all_cons fuel st st' n ns
              (λ u x. p.1 u (update_not_unseen st n u visiting (λ y. cc) x))
              (p.1 n (λ y. cc (update_same st n visiting))) (ih st' p.0)
        entered cycle_found p ih = (p, tt)
        entered out_of_fuel p ih = absurd p

    -- After a search without a cycle every node is accessible.
    Accessible :
        (sourced : (u w : Text) → Child adj w u → mem u ids ≡ true)
        → (ns : List Text) (st : State) → Post all_unseen (finished st)
        → Seen ns (finished st)
        → ((u : Text) → mem u ids ≡ true → In u ns)
        → (u : Text) → Acc (Child adj) u
    Accessible sourced ns st p seen all_in u = elim (Bool-cases (mem u ids)) [
      | inl m ↦ elim (Color-cases (st u)) [
        | inl e ↦ absurd (seen u (all_in u m) e)
        | inr (inl e) ↦ absurd (elim (p.0.on_stack u e) [ ])
        | inr (inr e) ↦ p.0.closed u e
      ]
      | inr out ↦ Acc.intro u (λ w c. absurd (cc (sourced u w c)))
    ]

    Inv-all_unseen : Inv adj all_unseen []
    Inv-all_unseen = record {
      closed = λ u e. absurd (cc);
      on_stack = λ u e. absurd (cc);
      covered = tt;
      linked = tt;
    }

    -- The whole search decides, for a list that holds exactly the known nodes.
    pub dfs_all-Verdict :
        (sourced : (u w : Text) → Child adj w u → mem u ids ≡ true)
        → (ns : List Text) → ((u : Text) → In u ns → mem u ids ≡ true)
        → ((u : Text) → mem u ids ≡ true → In u ns)
        → Verdict adj (dfs_all adj (dfs_fuel adj ids) all_unseen ns)
    dfs_all-Verdict sourced ns sound complete = verdict _ (
        dfs_all_lem (dfs_fuel adj ids) all_unseen ns (omega (arith, owed-fuel adj ids)) sound
          Inv-all_unseen)
      where
        verdict : (o : Outcome) → Post all_unseen o × Seen ns o → Verdict adj o
        verdict (finished st) (p, q) = record { apply = Accessible sourced ns st p q complete }
        verdict cycle_found (p, q) = p
        verdict out_of_fuel (p, q) = p
