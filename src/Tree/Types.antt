-- ===== src/Tree/Types.antt =====
-- The data models of smeme/decision_tree/models.py and the checks that their construction makes.
-- Dates are day numbers.
use smeme.Base.{
  ◌==◌, some, true, ◌==◌, true, none, some, codes, ℕ, Text, Bool, false, ◌&&◌, ◌||◌, not, leb, ltb,
  nat_beq, Option, List, [], ◌∷◌, all, any, is_nil, length,
}
use smeme.Base.Result.{Result, ok, raise_if, ◌>>◌}
use smeme.Runtime.Input.{max_radio_or_option_str_len}

pub record AuthorityReference : Type 0 where
  pub citation : Text
  pub title : Option Text
  pub url : Option Text

pub record EvidenceSource : Type 0 where
  pub kind : Text
  pub ref : Text
  pub note : Option Text
  pub avoid : Bool

pub record QuestionData : Type 0 where
  pub text : Text
  pub type : Text
  pub options : List Text
  pub required : Bool
  pub help_text : Option Text
  pub authorities : List AuthorityReference
  pub evidence_sources : List EvidenceSource

pub record ConclusionData : Type 0 where
  pub title : Text
  pub summary : Text
  pub recommendations : List Text
  pub severity : Option Text

pub data NodeType : Type 0 where
  question conclusion : NodeType

-- The union `QuestionData | ConclusionData`. An instance is taken whatever the node's type is.
pub data NodeData : Type 0 where
  asks : QuestionData → NodeData
  concludes : ConclusionData → NodeData

pub record GraphNode : Type 0 where
  pub id : Text
  pub type : NodeType
  pub content : NodeData

pub record GraphEdge : Type 0 where
  pub source : Text
  pub target : Text
  pub condition : Option Text

pub record RegressionFixture : Type 0 where
  pub name : Text
  pub raw_answers : List (Text × Text)
  pub expected_conclusion_id : Text

pub record DtGraphMetadata : Type 0 where
  pub title : Text
  pub description : Option Text
  pub category : Option Text
  pub estimated_time : Option ℕ
  pub effective_date : Option ℕ
  pub review_by : Option ℕ
  pub version : Text
  pub tags : List Text
  pub regression_fixtures : List RegressionFixture

pub record DtGraph : Type 0 where
  pub nodes : List GraphNode
  pub edges : List GraphEdge
  pub metadata : DtGraphMetadata

-- What a construction or an operation raises: a `ValueError` by its cause.
pub data GraphError : Type 0 where
  node_exists node_not_found source_not_found target_not_found : Text → GraphError
  not_radio : Text → GraphError
  no_options : GraphError
  bad_option : GraphError
  bad_severity : Option Text → GraphError
  bad_node_id : Text → GraphError
  not_a_question not_a_conclusion : Text → GraphError
  edge_exists edge_not_found : Text → Text → Option Text → GraphError
  bad_kind node_id_required question_text_required wiring_required : GraphError
  no_predecessor : GraphError
  entry_not_unique : ℕ → GraphError
  entry_invalid : GraphError
  wiring_none_on_nonempty unknown_wiring : GraphError
  no_question_yet title_required summary_required no_incoming_edge : GraphError
  edge_source_required edge_condition_required : GraphError
  unknown_operation : Text → GraphError

unfoldable pub is_letter : ℕ → Bool
is_letter c = leb 65 c && leb c 90 || leb 97 c && leb c 122

-- `NODE_ID_PATTERN`
unfoldable pub is_node_id : Text → Bool
unfolding is_letter
is_node_id [] = false
is_node_id (c ∷ s) =
    is_letter c && all (λ d. is_letter d || leb 48 d && leb d 57 || nat_beq d 95 || nat_beq d 45) s

-- `QuestionData(…)`: at least one option, none too long.
unfoldable pub make_question_data :
    Text
    → List Text
    → Option Text
    → Bool
    → List AuthorityReference
    → List EvidenceSource
    → Result GraphError QuestionData
make_question_data question_text options help_text required authorities evidence_sources = do
  raise_if (is_nil options) no_options
  raise_if (any (λ o. ltb max_radio_or_option_str_len (length o)) options) bad_option
  ok (record {
    text = question_text;
    type = codes "radio";
    options = options;
    required = required;
    help_text = help_text;
    authorities = authorities;
    evidence_sources = evidence_sources;
  })

unfoldable pub is_severity : Option Text → Bool
is_severity none = true
is_severity (some s) = s == codes "info" || s == codes "warning" || s == codes "critical"

-- `ConclusionData(…)`: its severity is one of three, or none.
unfoldable pub make_conclusion_data :
    Text → Text → List Text → Option Text → Result GraphError ConclusionData
unfolding is_severity
make_conclusion_data title summary recommendations severity = do
  raise_if (not (is_severity severity)) (bad_severity severity)
  ok (record {
    title = title;
    summary = summary;
    recommendations = recommendations;
    severity = severity;
  })

-- `GraphNode(…)`
unfoldable pub make_node : Text → NodeType → NodeData → Result GraphError GraphNode
unfolding is_node_id
make_node id type content = do
  raise_if (not (is_node_id id)) (bad_node_id id)
  ok (record { id = id; type = type; content = content })

-- `GraphEdge(…)`
unfoldable pub make_edge : Text → Text → Option Text → Result GraphError GraphEdge
unfolding is_node_id
make_edge source target condition = do
  raise_if (not (is_node_id source)) (bad_node_id source)
  raise_if (not (is_node_id target)) (bad_node_id target)
  ok (record { source = source; target = target; condition = condition })
