-- ===== src/Examples/Graphs.antt =====
-- Strict validation, the search for cycles and the compiler on small graphs.
use mathlib.Core.WellFounded.{WellFounded}
use smeme.Base.{
  Text, codes, true, ◌==◌, strip, Option, none, some, List, [], ◌∷◌, ◌++◌, ◌≡◌, refl, In, head,
  tail, reverse, ◌↔◌, mem,
}
use smeme.Base.Result.{ok}
use smeme.Tree.Types.{
  DtGraph, GraphNode, GraphEdge, question, conclusion, asks, concludes, is_node_id,
}
use smeme.Tree.Queries.{node_ids}
use smeme.Tree.Strict.{validate_graph}
use smeme.Tree.Strict.Accepts.{IsStrict, validate_graph-IsStrict}
use smeme.Tree.Cycle.{has_cycle, no_cycle, cycle_detected, adjacency}
use smeme.Tree.Cycle.Exact.{has_cycle-WellFounded}
use smeme.Tree.Cycle.Path.{Back, has_cycle-Back}
use smeme.Editor.WellFormed.{IsWellFormed, IsTyped}
use smeme.Ir.Types.{Ir, radio}
use smeme.Ir.Build.{compile_dt_graph_to_ir}
use smeme.Ir.Built.{IsRadioOnly, IsBuilt, compile_dt_graph_to_ir-IsBuilt}
use smeme.Ir.Dag.Walk.{Child}
use smeme.Ir.Validate.{is_valid}
use smeme.Ir.Deployable.{compile_dt_graph_to_ir-is_valid}
use smeme.Examples.Edits.{no_metadata, In-cases}

abbrev ask : Text → List Text → GraphNode
ask id options = record {
  id = id;
  type = question;
  content = asks (record {
    text = codes "Paid?";
    type = codes "radio";
    options = options;
    required = true;
    help_text = none;
    authorities = [];
    evidence_sources = [];
  });
}

abbrev end : Text → GraphNode
end id = record {
  id = id;
  type = conclusion;
  content = concludes (record { title = id; summary = id; recommendations = []; severity = none });
}

abbrev edge : Text → Text → Option Text → GraphEdge
edge s t c = record { source = s; target = t; condition = c }

abbrev parking : DtGraph
parking = record {
  nodes =
      ask (codes "q1") (codes "Yes" ∷ codes "No" ∷ []) ∷ end (codes "ok") ∷ end (codes "no") ∷ [];
  edges =
      edge (codes "q1") (codes "ok") (some (codes " Yes"))
      ∷ edge (codes "q1") (codes "no") (some (codes "No"))
      ∷ [];
  metadata = no_metadata;
}

-- Two questions that lead to one another.
abbrev circle : DtGraph
circle = record {
  nodes = ask (codes "a") (codes "Yes" ∷ []) ∷ ask (codes "b") (codes "Yes" ∷ []) ∷ [];
  edges =
      edge (codes "a") (codes "b") (some (codes "Yes"))
      ∷ edge (codes "b") (codes "a") (some (codes "Yes"))
      ∷ [];
  metadata = no_metadata;
}

parking_accepted : validate_graph parking ≡ ok tt
unfolding validate_graph strip ◌==◌
parking_accepted = refl

parking_acyclic : has_cycle parking ≡ no_cycle
unfolding has_cycle ◌==◌
parking_acyclic = refl

-- The message says that `a` leads to `a`, which it does not.
circle_path : has_cycle circle ≡ cycle_detected (codes "b" ∷ codes "a" ∷ codes "a" ∷ [])
unfolding has_cycle ◌==◌
circle_path = refl

In-three {ℓ} :
    {A : Type ℓ} (P : A → Type 0) {a b c : A}
    → P a
    → P b
    → P c
    → {x : A} → In x (a ∷ b ∷ c ∷ [])
    → P x
In-three P p q r head = p
In-three P p q r (tail m) = In-cases P q r m

parking-IsWellFormed : IsWellFormed parking
unfolding is_node_id ◌==◌
parking-IsWellFormed = record {
  distinct = (refl, (refl, (refl, tt)));
  named = λ n m. In-three (λ (x : GraphNode). is_node_id x.id ≡ true) refl refl refl m;
  typed = λ n m. In-three (λ (x : GraphNode). IsTyped x.type x.content) (λ e. absurd (cc)) tt tt m;
  source_known =
      λ e m. In-cases (λ (x : GraphEdge). mem x.source (node_ids parking) ≡ true) refl refl m;
  target_known =
      λ e m. In-cases (λ (x : GraphEdge). mem x.target (node_ids parking) ≡ true) refl refl m;
}

parking-IsRadioOnly : IsRadioOnly parking
parking-IsRadioOnly n q m =
    In-three (λ (x : GraphNode). x.content ≡ asks q → q.type ≡ radio) (λ e. cc) (λ e. absurd (cc))
      (λ e. absurd (cc)) m

circle-IsWellFormed : IsWellFormed circle
unfolding is_node_id ◌==◌
circle-IsWellFormed = record {
  distinct = (refl, (refl, tt));
  named = λ n m. In-cases (λ (x : GraphNode). is_node_id x.id ≡ true) refl refl m;
  typed = λ n m.
      In-cases (λ (x : GraphNode). IsTyped x.type x.content) (λ e. absurd (cc)) (λ e. absurd (cc))
        m;
  source_known =
      λ e m. In-cases (λ (x : GraphEdge). mem x.source (node_ids circle) ≡ true) refl refl m;
  target_known =
      λ e m. In-cases (λ (x : GraphEdge). mem x.target (node_ids circle) ≡ true) refl refl m;
}

validate_graph-IsStrict_example : IsStrict parking
validate_graph-IsStrict_example = validate_graph-IsStrict parking parking_accepted

has_cycle-WellFounded_example :
    (has_cycle circle ≡ no_cycle) ↔ WellFounded (Child (adjacency circle))
has_cycle-WellFounded_example = has_cycle-WellFounded circle circle-IsWellFormed

has_cycle-Back_example :
    (v : Text) × (ps : List Text) × (codes "b" ∷ codes "a" ∷ codes "a" ∷ []
      ≡ reverse (v ∷ ps) ++ v ∷ [])
    × Back (adjacency circle) (v ∷ (ps ++ v ∷ []))
has_cycle-Back_example =
    has_cycle-Back circle (codes "b" ∷ codes "a" ∷ codes "a" ∷ []) circle-IsWellFormed circle_path

compile_dt_graph_to_ir-is_valid_example :
    (ir : Ir) × (compile_dt_graph_to_ir parking ≡ ok ir) × (is_valid ir ≡ true)
compile_dt_graph_to_ir-is_valid_example =
    compile_dt_graph_to_ir-is_valid parking parking-IsWellFormed parking-IsRadioOnly
      parking_accepted parking_acyclic

compile_dt_graph_to_ir-IsBuilt_example :
    (ir : Ir) × (compile_dt_graph_to_ir parking ≡ ok ir) × IsBuilt parking ir
compile_dt_graph_to_ir-IsBuilt_example =
    compile_dt_graph_to_ir-IsBuilt parking parking-IsWellFormed parking-IsRadioOnly
