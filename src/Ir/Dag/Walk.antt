-- ===== src/Ir/Dag/Walk.antt =====
-- Walks along successors, and well-foundedness of the child relation as the meaning of "acyclic".
use mathlib.Core.WellFounded.{Acc}
use smeme.Base.{Text, mem, ◌≡◌, true, List}

module _ (adj : Text → List Text) where
  -- `Child v u`: the graph has an arc from `u` to `v`.
  abbrev pub Child : Text → Text → Type 0
  Child v u = mem v (adj u) ≡ true

  -- A walk of at least one arc.
  pub data Walk (u : Text) : Text → Type 0 where
    arc : {v : Text} → Child v u → Walk u v
    more : {v w : Text} → Walk u v → Child w v → Walk u w

  pub Walk-cons : {u v w : Text} → Child v u → Walk v w → Walk u w
  Walk-cons c (arc d) = more (arc c) d
  Walk-cons c (more r d) = more (Walk-cons c r) d

  -- A closed walk can be started one arc later.
  Walk-first :
      {u w : Text} → Walk u w → (v : Text) × Child v u × ((x : Text) → Child x w → Walk v x)
  Walk-first (arc {v} c) = (v, c, λ x d. arc d)
  Walk-first (more r d) = let (v, c, f) = Walk-first r in (v, c, λ x e. more (f _ d) e)

  -- An accessible node lies on no closed walk.
  pub Acc-not-closed : {u : Text} → Acc Child u → Walk u u → ⊥
  Acc-not-closed (Acc.intro u smaller) r =
      let (v, c, f) = Walk-first r in Acc-not-closed (smaller v c) (f v c)

-- Accessibility passes to a smaller relation.
pub Acc-sub :
    {R S : Text → Text → Type 0} → ((u v : Text) → R v u → S v u) → {u : Text} → Acc S u → Acc R u
Acc-sub sub (Acc.intro u smaller) = Acc.intro u (λ v r. Acc-sub sub (smaller v (sub u v r)))
