-- ===== src/Workflows/Order.antt =====
-- The queue of `validate_graph` in src/workflows.rs, which visits the nodes in topological order
-- (Kahn's algorithm). The vectors are functions of the index; the links are resolved to indices.
pub mod Relax
pub mod Count
pub mod Visit
pub mod Start
pub mod Acyclic
use yunova.Base.{ℕ, zero, suc, ◌+◌, ◌-◌, List, [], ◌∷◌, ◌++◌, if◌then◌else◌, ◌==◌}

pub record Links : Type 0 where
  pub indegree : ℕ → ℕ
  pub outgoing : ℕ → List ℕ
  pub incoming : ℕ → List ℕ

abbrev pub no_links : Links
no_links = record { indegree = λ i. 0; outgoing = λ i. []; incoming = λ i. [] }

-- `v[i] = a`
unfoldable pub put_at : {A : Type 0} → ℕ → A → (ℕ → A) → ℕ → A
put_at i a v = λ j. if j == i then a else v j

-- One link, at the end of each list.
unfoldable pub add_link : ℕ × ℕ → Links → Links
add_link (source, target) l = record {
  indegree = put_at target (l.indegree target + 1) l.indegree;
  outgoing = put_at source (l.outgoing source ++ target ∷ []) l.outgoing;
  incoming = put_at target (l.incoming target ++ source ∷ []) l.incoming;
}

unfoldable pub add_links : List (ℕ × ℕ) → Links → Links
add_links [] l = l
add_links (p ∷ ps) l = add_links ps (add_link p l)

-- The indices below `n` without a link to them, from `i` on for `m` numbers.
unfoldable pub free_from : (ℕ → ℕ) → ℕ → ℕ → List ℕ
free_from indegree i zero = []
free_from indegree i (suc m) =
    let rest = free_from indegree (suc i) m in if indegree i == 0 then i ∷ rest else rest

-- The inner loop: each target has one link less, and is queued with its last.
unfoldable pub relax : List ℕ → (ℕ → ℕ) → List ℕ → (ℕ → ℕ) × List ℕ
relax [] indegree queue = (indegree, queue)
relax (target ∷ targets) indegree queue =
    let left = indegree target - 1 in
    relax targets (put_at target left indegree) (if left == 0 then queue ++ target ∷ [] else queue)

pub record Progress : Type 0 where
  pub indegree : ℕ → ℕ
  pub queue : List ℕ
  pub visited : ℕ

-- The outer loop, with fuel for each node.
unfoldable pub visit : ℕ → (ℕ → List ℕ) → Progress → Progress
visit zero outgoing p = p
visit (suc fuel) outgoing p = elim p.queue [
  | [] ↦ p
  | index ∷ rest ↦
      let (indegree, queue) = relax (outgoing index) p.indegree rest in
      visit fuel outgoing (record { indegree = indegree; queue = queue; visited = suc p.visited })
]

unfoldable pub start : ℕ → Links → Progress
start n l = record { indegree = l.indegree; queue = free_from l.indegree 0 n; visited = 0 }

-- The nodes that the queue visits, of `n`.
unfoldable pub visit_all : ℕ → Links → Progress
visit_all n l = visit n l.outgoing (start n l)
