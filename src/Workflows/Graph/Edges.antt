-- ===== src/Workflows/Graph/Edges.antt =====
-- The links that `validate_graph` of src/workflows.rs finds for the edges of a graph.
use yunova.Base.{
  ℕ, suc, ◌+◌, ◌≤◌, ◌<◌, ◌≡◌, refl, subst, Bool, true, ◌&&◌, Option, none, some, List, [], ◌∷◌, all,
  length, String, eq_iff, if◌then◌else◌, ◌==◌, ltb, arith,
}
use yunova.Usage.Json.{Value}
use yunova.Workflows.Nodes.{F64, WorkflowNode}
use yunova.Workflows.Order.Visit.{ends_below}
use yunova.Workflows.Order.Acyclic.{is_ranked}
use yunova.Workflows.Graph.{
  WorkflowEdge, GraphError, Checked, good, bad, NodeIndex, index_of, check_node, check_nodes,
  resolve_edge, link_after, check_edges,
}

-- The indices of the map fall, from below `n` on.
unfoldable pub falling : ℕ → NodeIndex → Bool
falling n [] = true
falling n ((key, i) ∷ index) = ltb i n && falling i index

falling_mono :
    (m n : ℕ) (index : NodeIndex) → m ≤ n → falling m index ≡ true → falling n index ≡ true
unfolding falling
falling_mono m n [] h f = refl
falling_mono m n ((key, i) ∷ index) h f = ground arith

pub index_of_below :
    (n : ℕ) (index : NodeIndex) (id : String) (i : ℕ)
    → falling n index ≡ true
    → index_of id index ≡ some i
    → i < n
unfolding index_of falling
index_of_below n [] id i f e = absurd (ground arith)
index_of_below n ((key, j) ∷ index) id i f e = ground (arith, index_of_below j index id i)

unfoldable pub key_of : ℕ → NodeIndex → String
key_of i [] = ""
key_of i ((key, j) ∷ index) = if i == j then key else key_of i index

key_of-index_of :
    (n : ℕ) (index : NodeIndex) (id : String) (i : ℕ)
    → falling n index ≡ true
    → index_of id index ≡ some i
    → key_of i index ≡ id
unfolding index_of key_of falling
key_of-index_of n [] id i f e = absurd (ground arith)
key_of-index_of n ((key, j) ∷ index) id i f e =
    ground (arith, key_of-index_of j index id i, index_of_below j index id i, eq_iff key id)

resolve_edge-good :
    (index : NodeIndex) (e : WorkflowEdge) (ids : List String) (s t : ℕ)
    → resolve_edge index e ids ≡ good (s, t)
    → (index_of e.source index ≡ some s) × (index_of e.target index ≡ some t)
unfolding resolve_edge
resolve_edge-good index e ids s t h = ground arith

-- The edges that pass, each with its link.
pub data Resolved (index : NodeIndex) : List WorkflowEdge → List (ℕ × ℕ) → Type 0 where
  none_left : Resolved index [] []
  one_more :
      {e : WorkflowEdge} {edges : List WorkflowEdge} {pairs : List (ℕ × ℕ)} (s t : ℕ)
      → index_of e.source index ≡ some s
      → index_of e.target index ≡ some t
      → Resolved index edges pairs
      → Resolved index (e ∷ edges) ((s, t) ∷ pairs)

good_inj : {A : Type 0} {x y : A} → good x ≡ good y → x ≡ y
good_inj e = cc

bad_good : {A : Type 0} {e : GraphError} {x : A} → bad e ≡ good x → ⊥
bad_good h = cc

-- The edge at the head, once the rest of the list passed or not.
Resolved-first :
    (index : NodeIndex) (e : WorkflowEdge) (edges : List WorkflowEdge) (ids : List String)
    (r : Checked (ℕ × ℕ)) (rest : Checked (List (ℕ × ℕ))) (pairs : List (ℕ × ℕ))
    → resolve_edge index e ids ≡ r
    → ((ps : List (ℕ × ℕ)) → rest ≡ good ps → Resolved index edges ps)
    → (elim r [ bad x ↦ bad x | good p ↦ link_after p rest ]) ≡ good pairs
    → Resolved index (e ∷ edges) pairs
unfolding link_after
Resolved-first index e edges ids (bad x) rest pairs h later o = absurd (bad_good o)
Resolved-first index e edges ids (good p) (bad x) pairs h later o = absurd (bad_good o)
Resolved-first index e edges ids (good (s, t)) (good ps) pairs h later o =
    let (a, b) = resolve_edge-good index e ids s t h in
    subst (Resolved index (e ∷ edges)) (good_inj o) (one_more s t a b (later ps refl))

pub check_edges-Resolved :
    (index : NodeIndex) (edges : List WorkflowEdge) (ids : List String) (pairs : List (ℕ × ℕ))
    → check_edges index edges ids ≡ good pairs
    → Resolved index edges pairs
unfolding check_edges
check_edges-Resolved index [] ids pairs h = subst (Resolved index []) (good_inj h) none_left
check_edges-Resolved index (e ∷ edges) ids pairs h =
    Resolved-first index e edges ids (resolve_edge index e ids)
      (check_edges index edges (e.id ∷ ids)) pairs refl
      (λ ps o. check_edges-Resolved index edges (e.id ∷ ids) ps o) h

pub Resolved-ends_below :
    (n : ℕ) (index : NodeIndex) (edges : List WorkflowEdge) (pairs : List (ℕ × ℕ))
    → falling n index ≡ true
    → Resolved index edges pairs
    → ends_below n pairs ≡ true
unfolding ends_below
Resolved-ends_below n index _ _ f none_left = refl
Resolved-ends_below n index _ _ f (one_more {e} s t a b r) = ground (
  arith,
  index_of_below n index e.source s f a,
  index_of_below n index e.target t f b,
  Resolved-ends_below n index _ _ f r,
)

-- The nodes have ranks that every edge raises.
abbrev pub raises : (String → ℕ) → List WorkflowEdge → Bool
raises rank edges = all (λ (e : WorkflowEdge). ltb (rank e.source) (rank e.target)) edges

unfoldable pub rank_or_zero : (ℕ → ℕ) → Option ℕ → ℕ
rank_or_zero rank none = 0
rank_or_zero rank (some i) = rank i

pub Resolved-raises :
    (index : NodeIndex) (rank : ℕ → ℕ) (edges : List WorkflowEdge) (pairs : List (ℕ × ℕ))
    → Resolved index edges pairs
    → raises (λ id. rank_or_zero rank (index_of id index)) edges ≡ is_ranked rank pairs
unfolding rank_or_zero
Resolved-raises index rank _ _ none_left = refl
Resolved-raises index rank _ _ (one_more s t a b r) =
    rw (a, b, Resolved-raises index rank _ _ r) refl

pub Resolved-is_ranked :
    (n : ℕ) (index : NodeIndex) (rank : String → ℕ) (edges : List WorkflowEdge)
    (pairs : List (ℕ × ℕ))
    → falling n index ≡ true
    → Resolved index edges pairs
    → is_ranked (λ i. rank (key_of i index)) pairs ≡ raises rank edges
Resolved-is_ranked n index rank _ _ f none_left = refl
Resolved-is_ranked n index rank _ _ f (one_more {e} s t a b r) =
    rw
      (
        key_of-index_of n index e.source s f a,
        key_of-index_of n index e.target t f b,
        Resolved-is_ranked n index rank _ _ f r,
      )
      refl

one_node :
    (i : ℕ) (id : String) (before : NodeIndex)
    → falling i before ≡ true
    → falling (suc i) ((id, i) ∷ before) ≡ true
unfolding falling
one_node i id before f = ground (arith, f)

pub check_nodes-falling :
    (to_vec : Value → Option ℕ) (as_f64 : Value → Option F64) (runnable : Bool) (i : ℕ)
    (nodes : List WorkflowNode) (before index : NodeIndex)
    → falling i before ≡ true
    → check_nodes to_vec as_f64 runnable i nodes before ≡ good index
    → falling (i + length nodes) index ≡ true
unfolding check_nodes
check_nodes-falling to_vec as_f64 runnable i [] before index f h =
    subst (λ m. falling m index ≡ true) (omega arith)
      (subst (λ x. falling i x ≡ true) (good_inj h) f)
check_nodes-falling to_vec as_f64 runnable i (node ∷ nodes) before index f h =
    passed (check_node to_vec as_f64 runnable node before) h (λ o.
      subst (λ m. falling m index ≡ true) (omega arith)
        (check_nodes-falling to_vec as_f64 runnable (suc i) nodes ((node.id, i) ∷ before) index
          (one_node i node.id before f) o))
  where
    passed :
        (r : Option GraphError)
        → (elim r [
          | none ↦ check_nodes to_vec as_f64 runnable (suc i) nodes ((node.id, i) ∷ before)
          | some e ↦ bad e
        ])
          ≡ good index
        → (check_nodes to_vec as_f64 runnable (suc i) nodes ((node.id, i) ∷ before) ≡ good index
            → falling (i + length (node ∷ nodes)) index ≡ true)
        → falling (i + length (node ∷ nodes)) index ≡ true
    passed none h k = k h
    passed (some e) h k = absurd (bad_good h)

pub all_nodes-falling :
    (to_vec : Value → Option ℕ) (as_f64 : Value → Option F64) (runnable : Bool)
    (nodes : List WorkflowNode) (index : NodeIndex)
    → check_nodes to_vec as_f64 runnable 0 nodes [] ≡ good index
    → falling (length nodes) index ≡ true
unfolding falling
all_nodes-falling to_vec as_f64 runnable nodes index h =
    subst (λ n. falling n index ≡ true) (omega arith)
      (check_nodes-falling to_vec as_f64 runnable 0 nodes [] index refl h)
