-- ===== src/Workflows/Graph/Known.antt =====
-- The nodes that the ids of an accepted graph name.
use yunova.Base.{
  ℕ, suc, ◌-◌, ◌≤◌, ◌≡◌, refl, ap, subst, ◌∙◌, Bool, true, false, Option, none, some, List, [], ◌∷◌,
  String, eq_iff, if◌then◌else◌, arith, inl, inr, Bool-cases,
}
use text.Mathlib.Text.{◌==◌ as str_eq}
use yunova.Usage.Json.{Value}
use yunova.Workflows.Nodes.{F64, WorkflowNode, output_kind}
use yunova.Workflows.Graph.{good, NodeIndex, index_of, is_known, check_node, check_nodes, type_at}

-- The type of the node with an id.
unfoldable pub type_of : String → List WorkflowNode → String
type_of id [] = ""
type_of id (node ∷ nodes) = if str_eq node.id id then node.node_type else type_of id nodes

abbrev pub is_type : String → Bool
is_type t = elim (output_kind t) [ none ↦ false | some k ↦ true ]

module _ (to_vec : Value → Option ℕ) (as_f64 : Value → Option F64) (runnable : Bool) where
  node_passed :
      (i : ℕ) (node : WorkflowNode) (nodes : List WorkflowNode) (before index : NodeIndex)
      → check_nodes to_vec as_f64 runnable i (node ∷ nodes) before ≡ good index
      → (check_node to_vec as_f64 runnable node before ≡ none)
        × (check_nodes to_vec as_f64 runnable (suc i) nodes ((node.id, i) ∷ before) ≡ good index)
  unfolding check_nodes
  node_passed i node nodes before index h = ground (arith, h)

  node_checked :
      (node : WorkflowNode) (before : NodeIndex)
      → check_node to_vec as_f64 runnable node before ≡ none
      → (index_of node.id before ≡ none) × (is_type node.node_type ≡ true)
  unfolding check_node is_known
  node_checked node before h = ground (arith, h)

  known_kept :
      (i : ℕ) (nodes : List WorkflowNode) (before index : NodeIndex) (id : String) (k : ℕ)
      → check_nodes to_vec as_f64 runnable i nodes before ≡ good index
      → index_of id before ≡ some k
      → index_of id index ≡ some k
  unfolding check_nodes index_of
  known_kept i [] before index id k h p =
      subst (λ x. index_of id x ≡ some k) (let e : before ≡ index = cc in e) p
  known_kept i (node ∷ nodes) before index id k h p =
      let (passed, rest) = node_passed i node nodes before index h in
      let (new, typed) = node_checked node before passed in
      known_kept (suc i) nodes ((node.id, i) ∷ before) index id k rest
        (ground (arith, p, new, eq_iff node.id id))

  pub type_found :
      (i : ℕ) (nodes : List WorkflowNode) (before index : NodeIndex) (id : String) (j : ℕ)
      → check_nodes to_vec as_f64 runnable i nodes before ≡ good index
      → index_of id before ≡ none
      → index_of id index ≡ some j
      → (i ≤ j) × (type_at nodes (j - i) ≡ type_of id nodes) × (is_type (type_of id nodes) ≡ true)
  unfolding check_nodes type_of type_at index_of
  type_found i [] before index id j h p q =
      absurd (let e : before ≡ index = cc in let f = subst (λ x. index_of id x ≡ none) e p in cc)
  type_found i (node ∷ nodes) before index id j h p q =
      let (passed, rest) = node_passed i node nodes before index h in
      let (new, typed) = node_checked node before passed in
      elim (Bool-cases (str_eq node.id id)) [
        | inl y ↦
            let here =
              known_kept (suc i) nodes ((node.id, i) ∷ before) index id i rest (rw y refl) in
            let same_place : i ≡ j = cc in
            (
              omega arith,
              rw y (
                  ap (type_at (node ∷ nodes)) (let e : j - i ≡ 0 = omega (arith, same_place) in e)),
              rw y typed,
            )
        | inr n ↦
            let (later, at, known) =
              type_found (suc i) nodes ((node.id, i) ∷ before) index id j rest (rw n p) q in
            (
              omega arith,
              rw n (
                  ap (type_at (node ∷ nodes)) (let e : j - i ≡ suc (j - suc i) = omega arith in e)
                  ∙ at),
              rw n known,
            )
      ]
