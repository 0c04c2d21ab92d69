-- ===== src/Tests/Workflows.antt =====
-- Examples of workflow graphs.
use yunova.Base.{
  ℕ, ◌≤◌, ◌≡◌, ◌≢◌, refl, true, false, none, some, Option, List, [], ◌∷◌, String, if◌then◌else◌,
  all,
}
use text.Mathlib.Text.{◌==◌ as str_eq}
use yunova.Base.Int.{pos}
use yunova.Usage.Json.{Value, null}
use yunova.Workflows.Nodes.{WorkflowNode, F64, output_kind, utf8_len, is_node_id, is_id_char}
use yunova.Workflows.Order.{
  no_links, add_links, add_link, put_at, free_from, relax, visit, start, visit_all,
}
use yunova.Workflows.Order.Visit.{ends_below}
use yunova.Workflows.Order.Start.{visit_all_ends}
use yunova.Workflows.Graph.{
  WorkflowGraph, cyclic, validate_graph, check_nodes, check_node, config_if, is_known, index_of,
  data_too_large, is_finite, check_edges, resolve_edge, is_edge_id, link_after, check_links,
  check_inputs, bad_inputs_of, type_at, gives_other,
}
use yunova.Workflows.Graph.Edges.{raises}
use yunova.Workflows.Graph.Typed.{fits, validate_graph-fits}
use yunova.Workflows.Graph.Cycles.{Walk, validate_graph-Walk, validate_graph-raises}

abbrev picture : WorkflowNode
picture = record {
  id = "a";
  node_type = "image_generation";
  x = some (pos 0);
  y = some (pos 0);
  config = null;
}

abbrev clip : WorkflowNode
clip = record picture { id = "b"; node_type = "video_generation" }

abbrev graph : WorkflowGraph
graph = record {
  version = pos 1;
  nodes = clip ∷ picture ∷ [];
  edges = record { id = "e"; source = "a"; target = "b"; priority = pos 100 } ∷ [];
}

abbrev to_vec : Value → Option ℕ
to_vec v = some 4

abbrev as_f64 : Value → Option F64
as_f64 v = none

graph_accepted : validate_graph to_vec as_f64 graph false ≡ none
unfolding validate_graph check_nodes check_node config_if is_known index_of data_too_large is_finite
    check_edges resolve_edge is_edge_id link_after check_links check_inputs bad_inputs_of type_at
    gives_other output_kind utf8_len is_node_id is_id_char add_links add_link put_at free_from relax
    visit start visit_all
graph_accepted = refl

validate_graph-Walk_example :
    ((rank : String → ℕ) × (raises rank graph.edges ≡ true)) × ¬ Walk graph.edges "a" "a"
validate_graph-Walk_example = validate_graph-Walk to_vec as_f64 false graph "a" graph_accepted

validate_graph-fits_example : all (fits graph.nodes) graph.edges ≡ true
validate_graph-fits_example = validate_graph-fits to_vec as_f64 false graph graph_accepted

abbrev rank : String → ℕ
rank id = if str_eq id "b" then 1 else 0

validate_graph-raises_example : validate_graph to_vec as_f64 graph false ≢ some cyclic
validate_graph-raises_example = validate_graph-raises to_vec as_f64 false graph rank refl

abbrev links : List (ℕ × ℕ)
links = (1, 0) ∷ (1, 2) ∷ (0, 2) ∷ []

links_below : ends_below 3 links ≡ true
unfolding ends_below
links_below = refl

visit_all_ends_example :
    let p = visit_all 3 (add_links links no_links) in (p.queue ≡ []) × (p.visited ≤ 3)
visit_all_ends_example = visit_all_ends 3 links links_below
