-- ===== src/Workflows/Graph/Cycles.antt =====
-- A graph that src/workflows.rs accepts has no cycle, and no other graph is refused for one.
use yunova.Base.{
  ℕ, suc, ◌<◌, ◌≡◌, ◌≢◌, refl, sym, ap, subst, ◌∙◌, Bool, true, false, Option, none, some, List, [],
  ◌∷◌, all, length, String, ◌==◌, ltb, arith,
}
use mathlib.Core.List.{Memᴰ}
use mathlib.Core.List.Memᴰ.{head, tail}
use yunova.Usage.Json.{Value}
use yunova.Workflows.Nodes.{F64, WorkflowNode}
use yunova.Workflows.Order.{no_links, add_links, visit_all}
use yunova.Workflows.Order.Acyclic.{visit_all_iff}
use yunova.Workflows.Graph.{
  WorkflowEdge, WorkflowGraph, GraphError, cyclic, Checked, good, bad, NodeIndex, index_of,
  check_node, check_nodes, resolve_edge, link_after, check_edges, check_inputs, check_links,
  validate_graph,
}
use yunova.Workflows.Graph.Edges.{
  falling, key_of, Resolved, check_edges-Resolved, Resolved-ends_below, raises, rank_or_zero,
  Resolved-raises, Resolved-is_ranked, all_nodes-falling,
}

-- Some edges of the graph lead from one node to another, at least one.
pub data Walk (edges : List WorkflowEdge) : String → String → Type 0 where
  edge : (e : WorkflowEdge) → Memᴰ e edges → Walk edges e.source e.target
  then_edge :
      {a : String} (e : WorkflowEdge) → Walk edges a e.source → Memᴰ e edges → Walk edges a e.target

-- A graph whose nodes and edges pass, by themselves.
record IsLinked (graph : WorkflowGraph) (pairs : List (ℕ × ℕ)) : Type 0 where
  index : NodeIndex
  falls : falling (length graph.nodes) index ≡ true
  resolved : Resolved index graph.edges pairs

abbrev visits_all : WorkflowGraph → List (ℕ × ℕ) → Bool
visits_all graph pairs =
    (visit_all (length graph.nodes) (add_links pairs no_links)).visited == length graph.nodes

-- The answer after the queue visited all nodes, or not.
abbrev IsAnswer : Bool → Option GraphError → Type 0
IsAnswer true r = r ≡ none
IsAnswer false r = r ≡ some cyclic

check_inputs_cyclic :
    (runnable : Bool) (all : List WorkflowNode) (incoming : ℕ → List ℕ) (i : ℕ)
    (nodes : List WorkflowNode)
    → check_inputs runnable all incoming i nodes ≢ some cyclic
unfolding check_inputs
check_inputs_cyclic runnable all incoming i [] h = ground arith
check_inputs_cyclic runnable all incoming i (node ∷ nodes) h =
    ground (arith, check_inputs_cyclic runnable all incoming (suc i) nodes)

check_links-visits_all :
    (runnable : Bool) (graph : WorkflowGraph) (pairs : List (ℕ × ℕ)) (b : Bool)
    → IsAnswer b (check_links runnable graph.nodes pairs)
    → visits_all graph pairs ≡ b
unfolding check_links
check_links-visits_all runnable graph pairs true h = ground arith
check_links-visits_all runnable graph pairs false h = ground (
  arith,
  check_inputs_cyclic runnable graph.nodes (add_links pairs no_links).incoming 0 graph.nodes,
)

resolve_edge_cyclic :
    (index : NodeIndex) (e : WorkflowEdge) (ids : List String)
    → resolve_edge index e ids ≢ bad cyclic
unfolding resolve_edge
resolve_edge_cyclic index e ids h = ground arith

check_edges_cyclic :
    (index : NodeIndex) (edges : List WorkflowEdge) (ids : List String)
    → check_edges index edges ids ≢ bad cyclic
unfolding check_edges link_after
check_edges_cyclic index [] ids h = ground arith
check_edges_cyclic index (e ∷ edges) ids h =
    ground (arith, resolve_edge_cyclic index e ids, check_edges_cyclic index edges (e.id ∷ ids))

module _ (to_vec : Value → Option ℕ) (as_f64 : Value → Option F64) (runnable : Bool) where
  check_node_cyclic :
      (node : WorkflowNode) (index : NodeIndex)
      → check_node to_vec as_f64 runnable node index ≢ some cyclic
  unfolding check_node
  check_node_cyclic node index h = ground arith

  check_nodes_cyclic :
      (i : ℕ) (nodes : List WorkflowNode) (index : NodeIndex)
      → check_nodes to_vec as_f64 runnable i nodes index ≢ bad cyclic
  unfolding check_nodes
  check_nodes_cyclic i [] index h = ground arith
  check_nodes_cyclic i (node ∷ nodes) index h =
      ground (
        arith,
        check_node_cyclic node index,
        check_nodes_cyclic (suc i) nodes ((node.id, i) ∷ index),
      )

  -- The stages after the sizes.
  checked : WorkflowGraph → Checked NodeIndex → Option GraphError
  checked graph (bad e) = some e
  checked graph (good index) = elim (check_edges index graph.edges []) [
    | bad e ↦ some e
    | good pairs ↦ check_links runnable graph.nodes pairs
  ]

  validate_graph-checked :
      (graph : WorkflowGraph) (b : Bool)
      → IsAnswer b (validate_graph to_vec as_f64 graph runnable)
      → IsAnswer b (checked graph (check_nodes to_vec as_f64 runnable 0 graph.nodes []))
  unfolding validate_graph checked
  validate_graph-checked graph true h = ground arith
  validate_graph-checked graph false h = ground arith

  not_answer : (b : Bool) (e : GraphError) → e ≢ cyclic → IsAnswer b (some e) → ⊥
  not_answer true e n h = ground arith
  not_answer false e n h = ground (arith, n)

  -- An answer after the queue comes from links that the edges resolve to.
  linked :
      (graph : WorkflowGraph) (b : Bool)
      → IsAnswer b (validate_graph to_vec as_f64 graph runnable)
      → (pairs : List (ℕ × ℕ)) × IsLinked graph pairs × (visits_all graph pairs ≡ b)
  unfolding checked
  linked graph b h =
      nodes_passed (check_nodes to_vec as_f64 runnable 0 graph.nodes []) refl
        (validate_graph-checked graph b h)
    where
      edges_passed :
          (index : NodeIndex) (r : Checked (List (ℕ × ℕ)))
          → falling (length graph.nodes) index ≡ true
          → check_edges index graph.edges [] ≡ r
          → IsAnswer b
              (elim r [ bad e ↦ some e | good pairs ↦ check_links runnable graph.nodes pairs ])
          → (pairs : List (ℕ × ℕ)) × IsLinked graph pairs × (visits_all graph pairs ≡ b)
      edges_passed index (bad e) f q a =
          absurd (not_answer b e (λ z. check_edges_cyclic index graph.edges [] (q ∙ ap bad z)) a)
      edges_passed index (good pairs) f q a = (
        pairs,
        record {
          index = index;
          falls = f;
          resolved = check_edges-Resolved index graph.edges [] pairs q;
        },
        check_links-visits_all runnable graph pairs b a,
      )

      nodes_passed :
          (r : Checked NodeIndex)
          → check_nodes to_vec as_f64 runnable 0 graph.nodes [] ≡ r
          → IsAnswer b (checked graph r)
          → (pairs : List (ℕ × ℕ)) × IsLinked graph pairs × (visits_all graph pairs ≡ b)
      nodes_passed (bad e) q a =
          absurd (not_answer b e (λ z. check_nodes_cyclic 0 graph.nodes [] (q ∙ ap bad z)) a)
      nodes_passed (good index) q a =
          edges_passed index (check_edges index graph.edges [])
            (all_nodes-falling to_vec as_f64 runnable graph.nodes index q) refl a

all_mem :
    {A : Type 0} (p : A → Bool) (x : A) (xs : List A) → Memᴰ x xs → all p xs ≡ true → p x ≡ true
all_mem p x [] m h = elim m [ ]
all_mem p x (y ∷ xs) (head e) h = subst (λ z. p z ≡ true) (sym e) (ground (arith, h))
all_mem p x (y ∷ xs) (tail m) h = all_mem p x xs m (ground (arith, h))

-- Along the edges of a walk the rank rises.
Walk-rises :
    (edges : List WorkflowEdge) (rank : String → ℕ) (a b : String)
    → raises rank edges ≡ true
    → Walk edges a b
    → rank a < rank b
Walk-rises edges rank _ _ h (edge e m) =
    let r = all_mem (λ (d : WorkflowEdge). ltb (rank d.source) (rank d.target)) e edges m h in
    ground arith
Walk-rises edges rank a _ h (then_edge e w m) =
    let r = all_mem (λ (d : WorkflowEdge). ltb (rank d.source) (rank d.target)) e edges m h in
    let before = Walk-rises edges rank a e.source h w in
    let step : rank e.source < rank e.target = ground arith in omega arith

-- An accepted graph has a topological order: a rank of the node ids that every edge raises. Hence no walk
-- along its edges comes back to the node that it started from.
pub validate_graph-Walk :
    (to_vec : Value → Option ℕ) (as_f64 : Value → Option F64) (runnable : Bool)
    (graph : WorkflowGraph) (id : String)
    → validate_graph to_vec as_f64 graph runnable ≡ none
    → ((rank : String → ℕ) × (raises rank graph.edges ≡ true)) × ¬ Walk graph.edges id id
validate_graph-Walk to_vec as_f64 runnable graph id h =
    let (pairs, l, v) = linked to_vec as_f64 runnable graph true h in
    let n = length graph.nodes in
    let ends = Resolved-ends_below n l.index graph.edges pairs l.falls l.resolved in
    let (rank, ok) = (visit_all_iff n pairs ends).0 (ground (arith, v)) in
    let by_id = λ (id : String). rank_or_zero rank (index_of id l.index) in
    let rises = Resolved-raises l.index rank graph.edges pairs l.resolved ∙ ok in
    ((by_id, rises), λ w. let r = Walk-rises graph.edges by_id id id rises w in omega arith)

-- A graph whose node ids have a rank that every edge raises is not refused for a cycle.
pub validate_graph-raises :
    (to_vec : Value → Option ℕ) (as_f64 : Value → Option F64) (runnable : Bool)
    (graph : WorkflowGraph) (rank : String → ℕ)
    → raises rank graph.edges ≡ true
    → validate_graph to_vec as_f64 graph runnable ≢ some cyclic
validate_graph-raises to_vec as_f64 runnable graph rank rises h =
    let (pairs, l, v) = linked to_vec as_f64 runnable graph false h in
    let n = length graph.nodes in
    let ends = Resolved-ends_below n l.index graph.edges pairs l.falls l.resolved in
    let ok = Resolved-is_ranked n l.index rank graph.edges pairs l.falls l.resolved ∙ rises in
    let all = (visit_all_iff n pairs ends).1 ((λ i. rank (key_of i l.index)), ok) in
    ground (arith, v, all)
