-- ===== src/Ir/Dag/Invariant.antt =====
-- The invariant of the depth-first search of smeme/reasoning/ir/validate.py.
use mathlib.Core.WellFounded.{Acc}
use smeme.Base.{
  Text, ◌==◌, mem, eq_iff, ==→eq, ◌≡◌, ◌≢◌, refl, sym, ◌⊎◌, inl, inr, true, Option, none, some,
  List, [], ◌∷◌, Bool-cases, or-cases, arith, subst, ap,
}
use smeme.Ir.Dag.{Color, unseen, visiting, done, State, Frame, update}
use smeme.Ir.Dag.Walk.{Child, Walk, arc, more}

pub update_same : (st : State) (k : Text) (c : Color) → update st k c k ≡ c
unfolding update
update_same st k c = ground (arith, eq_iff k k)

pub update_cases : (st : State) (k j : Text) (c : Color) → (k ≡ j) ⊎ (update st k c j ≡ st j)
unfolding update
update_cases st k j c = elim (Bool-cases (k == j)) [
  | inl e ↦ inl (==→eq k j e)
  | inr e ↦ inr (rw e)
]

pub update_done : (st : State) (k j : Text) → st j ≡ done → update st k done j ≡ done
unfolding update
update_done st k j h = ground arith

pub update_unseen_done :
    (st : State) (k j : Text) → st k ≡ unseen → st j ≡ done → update st k visiting j ≡ done
unfolding update
update_unseen_done st k j u h = ground (arith, eq_iff k j)

pub update_not_unseen :
    (st : State) (k j : Text) (c : Color) → c ≢ unseen → st j ≢ unseen → update st k c j ≢ unseen
unfolding update
update_not_unseen st k j c n h = ground arith

-- The node stands on the stack.
pub data OnStack (w : Text) : List Frame → Type 0 where
  top : {vs : List Text} {rest : List Frame} → OnStack w ((w, vs) ∷ rest)
  below : {f : Frame} {rest : List Frame} → OnStack w rest → OnStack w (f ∷ rest)

pub OnStack-top :
    {w u : Text} {vs ws : List Text} {rest : List Frame}
    → OnStack w ((u, vs) ∷ rest)
    → OnStack w ((u, ws) ∷ rest)
OnStack-top top = top
OnStack-top (below m) = below m

pub OnStack-pop :
    {w u : Text} {vs : List Text} {rest : List Frame}
    → OnStack w ((u, vs) ∷ rest)
    → (w ≡ u) ⊎ OnStack w rest
OnStack-pop top = inl refl
OnStack-pop (below m) = inr m

module _ (adj : Text → List Text) where
  -- Each successor of a node on the stack is still to be read, is finished, or is the node above.
  abbrev pub Covered : State → Option Text → List Frame → Type 0
  Covered st above [] = Unit
  Covered st above ((u, vs) ∷ rest) =
      ((w : Text) → Child adj w u → (mem w vs ≡ true) ⊎ (st w ≡ done) ⊎ (above ≡ some w))
      × Covered st (some u) rest

  -- What is to be read are successors, and each node on the stack is a successor of the one below.
  abbrev pub Linked : Option Text → List Frame → Type 0
  Linked above [] = Unit
  Linked above ((u, vs) ∷ rest) =
      ((w : Text) → mem w vs ≡ true → Child adj w u)
      × ((w : Text) → above ≡ some w → Child adj w u)
      × Linked (some u) rest

  pub record Inv (st : State) (frames : List Frame) : Type 0 where
    pub closed : (u : Text) → st u ≡ done → Acc (Child adj) u
    pub on_stack : (u : Text) → st u ≡ visiting → OnStack u frames
    pub covered : Covered st none frames
    pub linked : Linked none frames

  Covered-mono :
      (st st' : State) (above : Option Text) (frames : List Frame)
      → ((w : Text) → st w ≡ done → st' w ≡ done)
      → Covered st above frames
      → Covered st' above frames
  Covered-mono st st' above [] keeps h = tt
  Covered-mono st st' above ((u, vs) ∷ rest) keeps h = (
    λ w c. elim (h.0 w c) [
      | inl m ↦ inl m
      | inr (inl d) ↦ inr (inl (keeps w d))
      | inr (inr a) ↦ inr (inr a)
    ],
    Covered-mono st st' (some u) rest keeps h.1,
  )

  -- The node above has been finished.
  Covered-drop :
      (st : State) (k : Text) (frames : List Frame)
      → st k ≡ done
      → Covered st (some k) frames
      → Covered st none frames
  Covered-drop st k [] d h = tt
  Covered-drop st k ((u, vs) ∷ rest) d h = (
    λ w c. elim (h.0 w c) [
      | inl m ↦ inl m
      | inr (inl e) ↦ inr (inl e)
      | inr (inr a) ↦ inr (inl (cc))
    ],
    h.1,
  )

  Linked-drop : (k : Text) (frames : List Frame) → Linked (some k) frames → Linked none frames
  Linked-drop k [] h = tt
  Linked-drop k ((u, vs) ∷ rest) h = (h.0, λ w e. absurd (cc), h.2)

  -- `next(successors, None)` is None: the top node is finished.
  pub Inv-pop :
      (st : State) (u : Text) (rest : List Frame)
      → Inv st ((u, []) ∷ rest)
      → Inv (update st u done) rest
  Inv-pop st u rest inv = record {
    closed = λ w d. elim (update_cases st u w done) [
      | inl e ↦ subst (Acc (Child adj)) e finished_top
      | inr same ↦ inv.closed w (cc)
    ];
    on_stack = λ w v. elim (update_cases st u w done) [
      | inl e ↦ absurd (cc (update_same st u done))
      | inr same ↦ elim (OnStack-pop (inv.on_stack w (cc))) [
        | inl e ↦ absurd (cc (update_same st u done))
        | inr m ↦ m
      ]
    ];
    covered =
        Covered-drop (update st u done) u rest (update_same st u done)
          (Covered-mono st (update st u done) (some u) rest (update_done st u) inv.covered.1);
    linked = Linked-drop u rest inv.linked.2;
  }
    where
      finished_top : Acc (Child adj) u
      finished_top = Acc.intro u λ w c. elim (inv.covered.0 w c) [
        | inl m ↦ absurd (cc)
        | inr (inl d) ↦ inv.closed w d
        | inr (inr a) ↦ absurd (cc)
      ]

  -- The successor is finished: the iterator goes on.
  pub Inv-skip :
      (st : State) (u v : Text) (vs : List Text) (rest : List Frame)
      → st v ≡ done
      → Inv st ((u, v ∷ vs) ∷ rest)
      → Inv st ((u, vs) ∷ rest)
  Inv-skip st u v vs rest d inv = record {
    closed = inv.closed;
    on_stack = λ w h. OnStack-top (inv.on_stack w h);
    covered = (
      λ w c. elim (inv.covered.0 w c) [
        | inl m ↦ elim (or-cases (v == w) (mem w vs) m) [
          | inl e ↦ inr (inl (rw (← ==→eq v w e) d))
          | inr later ↦ inl later
        ]
        | inr other ↦ inr other
      ],
      inv.covered.1,
    );
    linked = (λ w m. inv.linked.0 w (ground arith), inv.linked.1, inv.linked.2);
  }

  -- The successor is new: it is pushed.
  pub Inv-push :
      (st : State) (u v : Text) (vs : List Text) (rest : List Frame)
      → st v ≡ unseen
      → Inv st ((u, v ∷ vs) ∷ rest)
      → Inv (update st v visiting) ((v, adj v) ∷ (u, vs) ∷ rest)
  Inv-push st u v vs rest new inv = record {
    closed = λ w d. elim (update_cases st v w visiting) [
      | inl e ↦ absurd (cc (update_same st v visiting))
      | inr same ↦ inv.closed w (cc)
    ];
    on_stack = λ w h. elim (update_cases st v w visiting) [
      | inl e ↦ subst (λ x. OnStack x ((v, adj v) ∷ (u, vs) ∷ rest)) e top
      | inr same ↦ below (OnStack-top (inv.on_stack w (cc)))
    ];
    covered = (
      λ w c. inl c,
      (
        λ w c. elim (inv.covered.0 w c) [
          | inl m ↦ elim (or-cases (v == w) (mem w vs) m) [
            | inl e ↦ inr (inr (ap some (==→eq v w e)))
            | inr later ↦ inl later
          ]
          | inr (inl d) ↦ inr (inl (update_unseen_done st v w new d))
          | inr (inr a) ↦ absurd (cc)
        ],
        Covered-mono st (update st v visiting) (some u) rest (λ w. update_unseen_done st v w new)
            inv.covered.1,
      ),
    );
    linked = (
      λ w m. m,
      λ w e. absurd (cc),
      (
        λ w m. inv.linked.0 w (ground arith),
        λ w e. inv.linked.0 w (ground (arith, eq_iff v w)),
        inv.linked.2,
      ),
    );
  }

  -- Every node on the stack reaches the top one.
  pub Linked-Walk :
      {w : Text} (u : Text) (vs : List Text) (rest : List Frame) (above : Option Text)
      → Linked above ((u, vs) ∷ rest)
      → OnStack w ((u, vs) ∷ rest)
      → (w ≡ u) ⊎ Walk adj w u
  Linked-Walk u vs rest above h top = inl refl
  Linked-Walk u vs [] above h (below m) = elim m [ ]
  Linked-Walk u vs ((x, xs) ∷ rest) above h (below m) =
      elim (Linked-Walk x xs rest (some u) h.2 m) [
        | inl e ↦ inr (subst (λ y. Walk adj y u) (sym e) (arc (h.2.1 u refl)))
        | inr r ↦ inr (more r (h.2.1 u refl))
      ]
