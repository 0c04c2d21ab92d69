-- ===== src/Workflows/Graph.antt =====
-- `validate_graph` of src/workflows.rs.
pub mod Edges
pub mod Known
pub mod Typed
pub mod Cycles
use yunova.Base.{
  ℕ, zero, suc, ◌+◌, Bool, true, false, not, ◌&&◌, ◌||◌, Option, none, some, List, [], ◌∷◌, any,
  length, String, if◌then◌else◌, ◌==◌, leb, ltb,
}
use text.Mathlib.Text.{◌==◌ as str_eq}
use yunova.Base.Int.{ℤ, pos, leb_ℤ}
use yunova.Base.Text.{codes}
use yunova.Usage.Json.{Value}
use yunova.Workflows.Nodes.{
  WorkflowNode, OutputKind, image, video, output_kind, F64, ConfigError, validate_node_config,
  is_node_id, max_node_data_bytes,
}
use yunova.Workflows.Order.{no_links, add_links, visit_all}

abbrev pub max_nodes : ℕ
max_nodes = 50

abbrev pub max_edges : ℕ
max_edges = 100

abbrev pub max_merge_inputs : ℕ
max_merge_inputs = 12

abbrev pub max_edge_priority : ℤ
max_edge_priority = pos 9_999

pub record WorkflowEdge : Type 0 where
  pub id : String
  pub source : String
  pub target : String
  pub priority : ℤ

pub record WorkflowGraph : Type 0 where
  pub version : ℤ
  pub nodes : List WorkflowNode
  pub edges : List WorkflowEdge

-- The messages of `validate_graph`.
pub data GraphError : Type 0 where
  bad_version no_nodes too_big bad_node_id bad_node_type bad_position too_much_data : GraphError
  repeated_node bad_edge_id bad_priority no_source no_target own_target cyclic : GraphError
  bad_inputs : GraphError
  bad_config : ConfigError → GraphError

pub data Checked (A : Type 0) : Type 0 where
  good : A → Checked A
  bad : GraphError → Checked A

-- `node_index`, a map from the ids to the indices.
abbrev pub NodeIndex : Type 0
NodeIndex = List (String × ℕ)

unfoldable pub index_of : String → NodeIndex → Option ℕ
index_of id [] = none
index_of id ((key, i) ∷ index) = if str_eq key id then some i else index_of id index

unfoldable pub is_known : String → NodeIndex → Bool
is_known id index = elim (index_of id index) [ none ↦ false | some i ↦ true ]

unfoldable pub data_too_large : Option ℕ → Bool
data_too_large none = true
data_too_large (some n) = ltb max_node_data_bytes n

unfoldable pub is_finite : Option F64 → Bool
is_finite none = false
is_finite (some v) = true

-- `to_vec` is the length of what `serde_json` writes for a value, `as_f64` its reading of a number.
module _ (to_vec : Value → Option ℕ) (as_f64 : Value → Option F64) where
  unfoldable pub config_if : Bool → WorkflowNode → Option ConfigError
  config_if false node = none
  config_if true node = validate_node_config as_f64 node

  -- The check of one node, against those before it.
  unfoldable pub check_node : Bool → WorkflowNode → NodeIndex → Option GraphError
  check_node runnable node index =
      if not (is_node_id (codes node.id))
      then some bad_node_id
      else if elim (output_kind node.node_type) [ none ↦ true | some k ↦ false ]
      then some bad_node_type
      else if not (is_finite node.x) || not (is_finite node.y)
      then some bad_position
      else if data_too_large (to_vec node.config)
      then some too_much_data
      else if is_known node.id index
      then some repeated_node
      else elim (config_if runnable node) [ none ↦ none | some e ↦ some (bad_config e) ]

  unfoldable pub check_nodes : Bool → ℕ → List WorkflowNode → NodeIndex → Checked NodeIndex
  check_nodes runnable i [] index = good index
  check_nodes runnable i (node ∷ nodes) index =
      let rest = check_nodes runnable (suc i) nodes ((node.id, i) ∷ index) in
      elim (check_node runnable node index) [ none ↦ rest | some e ↦ bad e ]

unfoldable pub is_edge_id : String → List String → Bool
is_edge_id id ids = not (str_eq id "") && not (any (str_eq id) ids)

-- A link between indices, if the edge passes.
unfoldable pub resolve_edge : NodeIndex → WorkflowEdge → List String → Checked (ℕ × ℕ)
resolve_edge index edge ids =
    if not (is_edge_id edge.id ids)
    then bad bad_edge_id
    else if not (leb_ℤ (pos 0) edge.priority && leb_ℤ edge.priority max_edge_priority)
    then bad bad_priority
    else elim (index_of edge.source index) [
      | none ↦ bad no_source
      | some source ↦ elim (index_of edge.target index) [
        | none ↦ bad no_target
        | some target ↦ if source == target then bad own_target else good (source, target)
      ]
    ]

unfoldable pub link_after : ℕ × ℕ → Checked (List (ℕ × ℕ)) → Checked (List (ℕ × ℕ))
link_after p (good ps) = good (p ∷ ps)
link_after p (bad e) = bad e

-- The loop over the edges; what it puts into the vectors is `add_links` of the result.
unfoldable pub check_edges : NodeIndex → List WorkflowEdge → List String → Checked (List (ℕ × ℕ))
check_edges index [] ids = good []
check_edges index (edge ∷ edges) ids =
    let rest = check_edges index edges (edge.id ∷ ids) in
    elim (resolve_edge index edge ids) [ bad e ↦ bad e | good p ↦ link_after p rest ]

unfoldable pub type_at : List WorkflowNode → ℕ → String
type_at [] i = ""
type_at (node ∷ nodes) zero = node.node_type
type_at (node ∷ nodes) (suc i) = type_at nodes i

-- `output_kind(…) != Some(kind)`
unfoldable pub gives_other : OutputKind → String → Bool
gives_other image t = elim (output_kind t) [ some image ↦ false | _ ↦ true ]
gives_other video t = elim (output_kind t) [ some video ↦ false | _ ↦ true ]

-- The refusal of a node's inputs.
unfoldable pub bad_inputs_of : Bool → List WorkflowNode → String → List ℕ → Bool
bad_inputs_of runnable nodes t inputs =
    let no_image = any (λ i. gives_other image (type_at nodes i)) inputs in
    let no_video = any (λ i. gives_other video (type_at nodes i)) inputs in
    if str_eq t "image_generation"
    then no_image
    else if str_eq t "video_generation"
    then ltb 1 (length inputs) || no_image
    else if str_eq t "video_trim"
    then ltb 1 (length inputs) || no_video || runnable && not (length inputs == 1)
    else ltb max_merge_inputs (length inputs) || no_video || runnable && ltb (length inputs) 2

unfoldable pub check_inputs :
    Bool → List WorkflowNode → (ℕ → List ℕ) → ℕ → List WorkflowNode → Option GraphError
check_inputs runnable all incoming i [] = none
check_inputs runnable all incoming i (node ∷ nodes) =
    let rest = check_inputs runnable all incoming (suc i) nodes in
    if bad_inputs_of runnable all node.node_type (incoming i) then some bad_inputs else rest

-- The part after the loop over the edges.
unfoldable pub check_links : Bool → List WorkflowNode → List (ℕ × ℕ) → Option GraphError
check_links runnable nodes pairs =
    let links = add_links pairs no_links in
    if not ((visit_all (length nodes) links).visited == length nodes)
    then some cyclic
    else check_inputs runnable nodes links.incoming 0 nodes

-- `none` is `Ok(())`.
unfoldable pub validate_graph :
    (Value → Option ℕ) → (Value → Option F64) → WorkflowGraph → Bool → Option GraphError
validate_graph to_vec as_f64 graph runnable =
    if not (leb_ℤ graph.version (pos 1) && leb_ℤ (pos 1) graph.version)
    then some bad_version
    else if length graph.nodes == 0
    then some no_nodes
    else if ltb max_nodes (length graph.nodes) || ltb max_edges (length graph.edges)
    then some too_big
    else elim (check_nodes to_vec as_f64 runnable 0 graph.nodes []) [
      | bad e ↦ some e
      | good index ↦ elim (check_edges index graph.edges []) [
        | bad e ↦ some e
        | good pairs ↦ check_links runnable graph.nodes pairs
      ]
    ]
