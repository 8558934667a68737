-- ===== src/Editor/Dispatch.antt =====
-- `apply_operation` of smeme/decision_tree/editor/operations.py. An operation is a constructor with
-- the values that the dispatcher reads from `operation_data`; a required key is taken to be there.
use smeme.Base.{Text, Bool, Option, List}
use smeme.Base.Result.{Result, err}
use smeme.Tree.Types.{DtGraph, GraphError, unknown_operation}
use smeme.Editor.Nodes
use smeme.Editor.Edges
use smeme.Editor.Wired
use smeme.Editor.Wired.{WiredData}

pub data Operation : Type 0 where
  create_node_wired : WiredData → Operation
  create_node : Text → Text → Text → List (Option Text) → Option Text → Bool → Operation
  create_conclusion_node : Text → Text → Text → List Text → Option Text → Operation
  update_node : Text → Text → Text → List (Option Text) → Option Text → Bool → Operation
  update_conclusion_node : Text → Text → Text → List Text → Option Text → Operation
  delete_node : Text → Operation
  create_edge : Text → Text → Option Text → Operation
  update_edge : Text → Text → Text → Option Text → Option Text → Operation
  delete_edge : Text → Text → Option Text → Operation
  other_operation : Text → Operation

unfoldable pub apply_operation : DtGraph → Operation → Result GraphError DtGraph
apply_operation g (create_node_wired d) = Wired.create_node_wired g d
apply_operation g (create_node id t ty o h r) = Nodes.create_node g id t ty o h r
apply_operation g (create_conclusion_node id t s r v) = Nodes.create_conclusion_node g id t s r v
apply_operation g (update_node id t ty o h r) = Nodes.update_node g id t ty o h r
apply_operation g (update_conclusion_node id t s r v) = Nodes.update_conclusion_node g id t s r v
apply_operation g (delete_node id) = Nodes.delete_node g id
apply_operation g (create_edge s t c) = Edges.create_edge g s t c
apply_operation g (update_edge s o n oc c) = Edges.update_edge g s o n oc c
apply_operation g (delete_edge s t c) = Edges.delete_edge g s t c
apply_operation g (other_operation name) = err (unknown_operation name)
