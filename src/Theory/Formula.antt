-- ===== src/Theory/Formula.antt =====
-- The part of Z3's Boolean language that the theory layer builds, and its meaning. A Bool is its
-- symbol name: two calls of `Bool` with one name give one variable, as in Z3.
use smeme.Base.{
  nat_beq, In, ℕ, Text, Bool, true, false, not, ◌&&◌, ◌||◌, if◌then◌else◌, List, [], ◌∷◌, ◌≡◌, suc,
}

pub data Formula : Type 0 where
  atom : Text → Formula
  neg : Formula → Formula
  conj : Formula → Formula → Formula
  disj : Formula → Formula → Formula
  implies : Formula → Formula → Formula
  iff : Formula → Formula → Formula
  -- `PbEq([(b, 1) for b in bs], 1)`
  exactly_one : List Text → Formula

-- An assignment of all variables, as `model_completion=True` gives one.
abbrev pub Model : Type 0
Model = Text → Bool

unfoldable pub count_true : Model → List Text → ℕ
count_true m [] = 0
count_true m (b ∷ bs) = if m b then suc (count_true m bs) else count_true m bs

abbrev pub beq : Bool → Bool → Bool
beq true b = b
beq false b = not b

unfoldable pub holds : Model → Formula → Bool
unfolding count_true
holds m (atom a) = m a
holds m (neg f) = not (holds m f)
holds m (conj f g) = holds m f && holds m g
holds m (disj f g) = holds m f || holds m g
holds m (implies f g) = not (holds m f) || holds m g
holds m (iff f g) = beq (holds m f) (holds m g)
holds m (exactly_one bs) = nat_beq (count_true m bs) 1

-- `Or(*terms)`
unfoldable pub or_all : Formula → List Formula → Formula
or_all f [] = f
or_all f (g ∷ gs) = disj f (or_all g gs)

-- `m` satisfies every assertion.
abbrev pub Satisfies : Model → List Formula → Type 0
Satisfies m fs = (f : Formula) → In f fs → holds m f ≡ true
