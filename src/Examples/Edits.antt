-- ===== src/Examples/Edits.antt =====
-- Edits of a small graph.
use smeme.Tree.Queries.{node_ids}
use smeme.Base.{
  Text, codes, none, some, [], ◌∷◌, ◌≡◌, refl, true, false, ◌==◌, In, head, tail, is_blank, strip,
  ◌↔◌, mem,
}
use smeme.Base.Result.{ok, err}
use smeme.Tree.Types.{
  DtGraph, DtGraphMetadata, GraphNode, GraphEdge, question, asks, target_not_found,
  make_question_data, make_node, make_edge, is_node_id,
}
use smeme.Editor.WellFormed.{IsWellFormed, IsTyped}
use smeme.Editor.Dispatch.{Operation, apply_operation}
use smeme.Editor.Nodes.{create_node, delete_node}
use smeme.Editor.Edges.{create_edge, delete_edge}
use smeme.Editor.Safe.{apply_operation-IsWellFormed}
use smeme.Editor.Exact.{IsNamed, delete_node_gone, delete_edge_gone}
use smeme.Ir.Build.{numbered_guard, digit_count}

abbrev pub no_metadata : DtGraphMetadata
no_metadata = record {
  title = codes "Parking";
  description = none;
  category = none;
  estimated_time = none;
  effective_date = none;
  review_by = none;
  version = codes "1";
  tags = [];
  regression_fixtures = [];
}

abbrev pub empty_graph : DtGraph
empty_graph = record { nodes = []; edges = []; metadata = no_metadata }

abbrev ask : Text → GraphNode
ask id = record {
  id = id;
  type = question;
  content = asks (record {
    text = codes "Paid?";
    type = codes "radio";
    options = codes "Yes" ∷ [];
    required = true;
    help_text = none;
    authorities = [];
    evidence_sources = [];
  });
}

abbrev one_question : DtGraph
one_question = record { nodes = ask (codes "q1") ∷ []; edges = []; metadata = no_metadata }

abbrev two_questions : DtGraph
two_questions = record {
  nodes = ask (codes "q1") ∷ ask (codes "q2") ∷ [];
  edges = [];
  metadata = no_metadata;
}

abbrev joined : DtGraph
joined = record {
  nodes = ask (codes "q1") ∷ ask (codes "q2") ∷ [];
  edges = record { source = codes "q1"; target = codes "q2"; condition = some (codes "Yes") } ∷ [];
  metadata = no_metadata;
}

abbrev second : Operation
second =
    Operation.create_node (codes "q2") (codes "Paid?") (codes "radio")
      (some (codes " Yes ") ∷ none ∷ []) none true

abbrev join : Operation
join = Operation.create_edge (codes "q1") (codes "q2") (some (codes "Yes"))

adds_second : apply_operation one_question second ≡ ok two_questions
unfolding apply_operation strip is_blank ◌==◌ create_node make_question_data make_node
adds_second = refl

joins : apply_operation two_questions join ≡ ok joined
unfolding apply_operation ◌==◌ create_edge make_edge
joins = refl

refuses_unknown : apply_operation one_question join ≡ err (target_not_found (codes "q2"))
unfolding apply_operation ◌==◌ create_edge make_edge
refuses_unknown = refl

pub In-cases {ℓ} :
    {A : Type ℓ} (P : A → Type 0) {a b : A} → P a → P b → {x : A} → In x (a ∷ b ∷ []) → P x
In-cases P p q head = p
In-cases P p q (tail head) = q
In-cases P p q (tail (tail m)) = elim m [ ]

two_questions-IsWellFormed : IsWellFormed two_questions
unfolding is_node_id ◌==◌
two_questions-IsWellFormed = record {
  distinct = (refl, (refl, tt));
  named = λ n m. In-cases (λ (x : GraphNode). is_node_id x.id ≡ true) refl refl m;
  typed = λ n m.
      In-cases (λ (x : GraphNode). IsTyped x.type x.content) (λ e. absurd (cc)) (λ e. absurd (cc))
        m;
  source_known = λ e m. elim m [ ];
  target_known = λ e m. elim m [ ];
}

apply_operation-IsWellFormed_example : IsWellFormed joined
apply_operation-IsWellFormed_example =
    apply_operation-IsWellFormed two_questions joined join two_questions-IsWellFormed joins

abbrev arrow : GraphEdge
arrow = record { source = codes "q1"; target = codes "q2"; condition = some (codes "Yes") }

abbrev first_only : DtGraph
first_only = record { nodes = ask (codes "q1") ∷ []; edges = []; metadata = no_metadata }

deletes_second : delete_node joined (codes "q2") ≡ ok first_only
unfolding delete_node ◌==◌
deletes_second = refl

delete_node_gone_example :
    (mem (codes "q2") (node_ids first_only) ≡ false)
    × (In (ask (codes "q1")) first_only.nodes
        ↔ (In (ask (codes "q1")) joined.nodes × (codes "q1" == codes "q2") ≡ false))
    × (In arrow [] ↔ (
        In arrow joined.edges
        × (codes "q1" == codes "q2") ≡ false
        × (codes "q2" == codes "q2") ≡ false))
delete_node_gone_example =
    delete_node_gone joined first_only (codes "q2") (ask (codes "q1")) arrow deletes_second

-- Two edges between the same nodes, of which one is deleted.
abbrev other_arrow : GraphEdge
other_arrow = record { source = codes "q1"; target = codes "q2"; condition = some (codes "No") }

abbrev parallel : DtGraph
parallel = record joined { edges = arrow ∷ other_arrow ∷ [] }

abbrev one_left : DtGraph
one_left = record joined { edges = other_arrow ∷ [] }

deletes_arrow : delete_edge parallel (codes "q1") (codes "q2") (some (codes "Yes ")) ≡ ok one_left
unfolding delete_edge strip ◌==◌
deletes_arrow = refl

delete_edge_gone_example :
    ((d : GraphEdge) × In d parallel.edges
      × IsNamed (codes "q1") (codes "q2") (some (codes "Yes ")) d)
    × (In other_arrow one_left.edges ↔ (
        In other_arrow parallel.edges
        × ¬ IsNamed (codes "q1") (codes "q2") (some (codes "Yes ")) other_arrow))
delete_edge_gone_example =
    delete_edge_gone parallel one_left (codes "q1") (codes "q2") (some (codes "Yes ")) other_arrow
      deletes_arrow

numbers_with_zeros : numbered_guard 12 ≡ codes "g_000012"
unfolding numbered_guard
numbers_with_zeros = refl

counts_digits : digit_count 1234567 1234567 ≡ 7
unfolding digit_count
counts_digits = refl
