-- ===== src/Workflows/Graph/Typed.antt =====
-- The kinds of the inputs of a graph's nodes.
use yunova.Base.{
  ℕ, zero, suc, ◌+◌, ◌-◌, ◌<◌, ◌≡◌, refl, sym, ap, subst, ◌∙◌, Bool, true, false, ◌&&◌, ◌||◌,
  Option, none, some, List, [], ◌∷◌, all, any, any-append, length, String, if◌then◌else◌, ◌==◌,
  arith, inl, inr, Bool-cases, ◌⊎◌,
}
use text.Mathlib.Text.{◌==◌ as str_eq}
use yunova.Usage.Json.{Value}
use yunova.Workflows.Nodes.{F64, WorkflowNode, OutputKind, image, video, output_kind}
use yunova.Workflows.Order.{Links, no_links, add_link, add_links, put_at}
use yunova.Workflows.Graph.{
  WorkflowEdge, WorkflowGraph, GraphError, Checked, good, bad, NodeIndex, index_of, check_nodes,
  check_inputs, bad_inputs_of, gives_other, type_at, check_edges, check_links, validate_graph,
}
use yunova.Workflows.Graph.Known.{type_of, is_type, type_found}
use yunova.Workflows.Graph.Edges.{
  Resolved, none_left, one_more, check_edges-Resolved, index_of_below, all_nodes-falling,
}

-- What a node of a type takes.
unfoldable pub takes : String → OutputKind
takes t = if str_eq t "image_generation" || str_eq t "video_generation" then image else video

abbrev pub is_kind : OutputKind → Option OutputKind → Bool
is_kind image (some image) = true
is_kind video (some video) = true
is_kind _ _ = false

-- Both ends of the edge are nodes of known types, and what the source gives is what the target takes.
abbrev pub fits : List WorkflowNode → WorkflowEdge → Bool
fits nodes e =
    is_kind (takes (type_of e.target nodes)) (output_kind (type_of e.source nodes))
    && is_type (type_of e.target nodes)

has : ℕ → List ℕ → Bool
has s inputs = any (λ i. i == s) inputs

any-false : (p : ℕ → Bool) (s : ℕ) (xs : List ℕ) → any p xs ≡ false → has s xs ≡ true → p s ≡ false
unfolding has
any-false p s [] a h = absurd (ground arith)
any-false p s (x ∷ xs) a h = elim (Bool-cases (x == s)) [
  | inl y ↦ subst (λ z. p z ≡ false) (let e : x ≡ s = ground arith in e) (ground arith)
  | inr n ↦ any-false p s xs (ground arith) (ground arith)
]

has-add_link :
    (a b s t : ℕ) (l : Links)
    → has s (l.incoming t) ≡ true
    → has s ((add_link (a, b) l).incoming t) ≡ true
unfolding add_link put_at has
has-add_link a b s t l h = elim (Bool-cases (t == b)) [
  | inl y ↦ rw y (
      any-append (λ i. i == s) (l.incoming b) (a ∷ [])
      ∙ rw
          (subst (λ x. any (λ i. i == s) (l.incoming x) ≡ true) (let e : t ≡ b = ground arith in e)
            h)
          refl)
  | inr n ↦ rw n h
]

has_new : (s t : ℕ) (l : Links) → has s ((add_link (s, t) l).incoming t) ≡ true
unfolding add_link put_at has
has_new s t l = ground (arith, any-append (λ i. i == s) (l.incoming t) (s ∷ []))

-- A link that is there stays.
has_after :
    (pairs : List (ℕ × ℕ)) (l : Links) (s t : ℕ)
    → has s (l.incoming t) ≡ true
    → has s ((add_links pairs l).incoming t) ≡ true
unfolding add_links
has_after [] l s t h = h
has_after ((a, b) ∷ pairs) l s t h =
    has_after pairs (add_link (a, b) l) s t (has-add_link a b s t l h)

abbrev is_linked : (ℕ → List ℕ) → ℕ × ℕ → Bool
is_linked incoming (s, t) = has s (incoming t)

all_linked :
    (pairs : List (ℕ × ℕ)) (l : Links) → all (is_linked (add_links pairs l).incoming) pairs ≡ true
unfolding add_links
all_linked [] l = refl
all_linked ((s, t) ∷ pairs) l =
    let first = has_after pairs (add_link (s, t) l) s t (has_new s t l) in
    let others = all_linked pairs (add_link (s, t) l) in rw (first, others) refl

module _ (runnable : Bool) (nodes : List WorkflowNode) (incoming : ℕ → List ℕ) where
  inputs_good :
      (i j : ℕ) (rest : List WorkflowNode)
      → check_inputs runnable nodes incoming i rest ≡ none
      → j < length rest
      → bad_inputs_of runnable nodes (type_at rest j) (incoming (i + j)) ≡ false
  unfolding check_inputs type_at
  inputs_good i j [] h k = absurd (omega arith)
  inputs_good i zero (node ∷ rest) h k =
      subst (λ x. bad_inputs_of runnable nodes node.node_type (incoming x) ≡ false)
        (let e : i ≡ i + 0 = omega arith in e) (ground (arith, h))
  inputs_good i (suc j) (node ∷ rest) h k =
      subst (λ x. bad_inputs_of runnable nodes (type_at rest j) (incoming x) ≡ false)
        (let e : suc i + j ≡ i + suc j = omega arith in e)
        (inputs_good (suc i) j rest (ground (arith, h)) (omega arith))

  kind_taken :
      (t : String) (s : ℕ) (inputs : List ℕ)
      → bad_inputs_of runnable nodes t inputs ≡ false
      → has s inputs ≡ true
      → is_kind (takes t) (output_kind (type_at nodes s)) ≡ true
  unfolding bad_inputs_of takes gives_other
  kind_taken t s inputs b h =
      let no_image = any-false (λ i. gives_other image (type_at nodes i)) s inputs in
      let no_video = any-false (λ i. gives_other video (type_at nodes i)) s inputs in
      ground (arith, b, h, no_image, no_video)

Checked-cases :
    {A : Type 0} (r : Checked A) → ((e : GraphError) × (r ≡ bad e)) ⊎ ((a : A) × (r ≡ good a))
Checked-cases (bad e) = inl (e, refl)
Checked-cases (good a) = inr (a, refl)

module _ (to_vec : Value → Option ℕ) (as_f64 : Value → Option F64) (runnable : Bool)
    (graph : WorkflowGraph) where
  -- The stages of an accepted graph.
  accepted :
      validate_graph to_vec as_f64 graph runnable ≡ none
      → (index : NodeIndex) × (pairs : List (ℕ × ℕ)) × (check_nodes to_vec as_f64 runnable 0
            graph.nodes []
          ≡ good index)
        × (check_edges index graph.edges [] ≡ good pairs)
        × (check_links runnable graph.nodes pairs ≡ none)
  unfolding validate_graph
  accepted h = elim (Checked-cases (check_nodes to_vec as_f64 runnable 0 graph.nodes [])) [
    | inl (e, x) ↦ absurd (ground (arith, h, x))
    | inr (index, x) ↦ elim (Checked-cases (check_edges index graph.edges [])) [
      | inl (e, y) ↦ absurd (ground (arith, h, x, y))
      | inr (pairs, y) ↦ (index, pairs, x, y, ground (arith, h, x, y))
    ]
  ]

  links_checked :
      (pairs : List (ℕ × ℕ))
      → check_links runnable graph.nodes pairs ≡ none
      → check_inputs runnable graph.nodes (add_links pairs no_links).incoming 0 graph.nodes ≡ none
  unfolding check_links
  links_checked pairs h = ground (arith, h)

  Resolved-fits :
      (index : NodeIndex) (incoming : ℕ → List ℕ) (edges : List WorkflowEdge) (pairs : List (ℕ × ℕ))
      → check_nodes to_vec as_f64 runnable 0 graph.nodes [] ≡ good index
      → check_inputs runnable graph.nodes incoming 0 graph.nodes ≡ none
      → Resolved index edges pairs
      → all (is_linked incoming) pairs ≡ true
      → all (fits graph.nodes) edges ≡ true
  unfolding index_of
  Resolved-fits index incoming _ _ n i none_left l = refl
  Resolved-fits index incoming _ _ n i (one_more {e} s t a b r) l =
      let nodes = graph.nodes in
      let (x, at_s, known_s) =
        type_found to_vec as_f64 runnable 0 nodes [] index e.source s n refl a in
      let (y, at_t, known_t) =
        type_found to_vec as_f64 runnable 0 nodes [] index e.target t n refl b in
      let below =
        index_of_below (length nodes) index e.target t
          (all_nodes-falling to_vec as_f64 runnable nodes index n) b in
      let from_start : (k : ℕ) → k - 0 ≡ k = λ k. omega arith in
      let taken =
        kind_taken runnable nodes incoming (type_at nodes t) s (incoming t)
          (subst (λ k. bad_inputs_of runnable nodes (type_at nodes t) (incoming k) ≡ false)
            (let zero_add : 0 + t ≡ t = omega arith in zero_add)
            (inputs_good runnable nodes incoming 0 t nodes i below))
          (ground (arith, l)) in
      let fit =
        subst (λ z. is_kind (takes z) (output_kind (type_of e.source nodes)) ≡ true)
          (sym (ap (type_at nodes) (from_start t)) ∙ at_t)
          (subst (λ z. is_kind (takes (type_at nodes t)) (output_kind z) ≡ true)
            (sym (ap (type_at nodes) (from_start s)) ∙ at_s) taken) in
      rw (fit, known_t) (Resolved-fits index incoming _ _ n i r (ground (arith, l)))

-- In an accepted graph every edge joins two nodes of known types, and what its source gives, an image or a
-- video, is what its target takes.
pub validate_graph-fits :
    (to_vec : Value → Option ℕ) (as_f64 : Value → Option F64) (runnable : Bool)
    (graph : WorkflowGraph)
    → validate_graph to_vec as_f64 graph runnable ≡ none
    → all (fits graph.nodes) graph.edges ≡ true
validate_graph-fits to_vec as_f64 runnable graph h =
    let (index, pairs, n, e, l) = accepted to_vec as_f64 runnable graph h in
    Resolved-fits to_vec as_f64 runnable graph index (add_links pairs no_links).incoming graph.edges
      pairs n (links_checked to_vec as_f64 runnable graph pairs l)
      (check_edges-Resolved index graph.edges [] pairs e) (all_linked pairs no_links)
