-- ===== src/Workflows/Order/Visit.antt =====
-- What the outer loop of the queue in src/workflows.rs keeps, and that it ends.
use yunova.Base.{
  ap, sym, subst, ℕ, zero, suc, ◌+◌, ◌≤◌, ◌≡◌, refl, ◌∙◌, Bool, true, false, not, ◌&&◌, ◌||◌, List,
  [], ◌∷◌, ◌++◌, length, length-append, if◌then◌else◌, ◌==◌, ltb, arith,
}
use yunova.Workflows.Order.{relax, Progress, visit}
use yunova.Workflows.Order.Count.{distinct_bound}
use yunova.Workflows.Order.Relax.{has, distinct, below, occurs, IsQueued, relax-IsQueued}

-- The links to `x` whose source was not visited.
unfoldable pub left : List (ℕ × ℕ) → List ℕ → ℕ → ℕ
left [] visited x = 0
left ((s, t) ∷ links) visited x =
    let rest = left links visited x in if x == t && not (has s visited) then suc rest else rest

-- The targets of the links from `i`, in order.
unfoldable pub targets_of : List (ℕ × ℕ) → ℕ → List ℕ
targets_of [] i = []
targets_of ((s, t) ∷ links) i = let rest = targets_of links i in if i == s then t ∷ rest else rest

unfoldable pub ends_below : ℕ → List (ℕ × ℕ) → Bool
ends_below n [] = true
ends_below n ((s, t) ∷ links) = ltb s n && ltb t n && ends_below n links

-- The visit of `i` takes its links off.
left_visit :
    (links : List (ℕ × ℕ)) (visited : List ℕ) (i x : ℕ)
    → has i visited ≡ false
    → left links visited x ≡ left links (i ∷ visited) x + occurs x (targets_of links i)
unfolding left targets_of occurs has
left_visit [] visited i x h = refl
left_visit ((s, t) ∷ links) visited i x h = ground (arith, left_visit links visited i x)

below-targets_of :
    (n : ℕ) (links : List (ℕ × ℕ)) (i : ℕ)
    → ends_below n links ≡ true
    → below n (targets_of links i) ≡ true
unfolding ends_below targets_of below
below-targets_of n [] i h = refl
below-targets_of n ((s, t) ∷ links) i h = ground (arith, below-targets_of n links i)

-- The indices visited, the last one first: each had no link left when its turn came.
abbrev pub Ordered : List (ℕ × ℕ) → List ℕ → Type 0
Ordered links [] = Unit {0}
Ordered links (i ∷ visited) = (left links visited i ≡ 0) × Ordered links visited

-- The loop's state, with the indices that it visited.
pub record IsVisit (n : ℕ) (links : List (ℕ × ℕ)) (visited : List ℕ) (p : Progress) : Type 0 where
  pub order : Ordered links visited
  pub number : p.visited ≡ length visited
  pub queued : IsQueued n (left links visited) [] (visited ++ p.queue) p.indegree

module _ (i : ℕ) where
  has-middle : (x : ℕ) (vs rs : List ℕ) → has x (vs ++ i ∷ rs) ≡ has x (i ∷ (vs ++ rs))
  unfolding has
  has-middle x [] rs = refl
  has-middle x (v ∷ vs) rs = ground (arith, has-middle x vs rs)

  distinct-middle : (vs rs : List ℕ) → distinct (vs ++ i ∷ rs) ≡ distinct (i ∷ (vs ++ rs))
  unfolding distinct has
  distinct-middle [] rs = refl
  distinct-middle (v ∷ vs) rs = ground (arith, distinct-middle vs rs, has-middle v vs rs)

  below-middle : (n : ℕ) (vs rs : List ℕ) → below n (vs ++ i ∷ rs) ≡ below n (i ∷ (vs ++ rs))
  unfolding below
  below-middle n [] rs = refl
  below-middle n (v ∷ vs) rs = ground (arith, below-middle n vs rs)

has-append : (x : ℕ) (xs ys : List ℕ) → has x (xs ++ ys) ≡ has x xs || has x ys
unfolding has
has-append x [] ys = refl
has-append x (y ∷ xs) ys = ground (arith, has-append x xs ys)

module _ (n : ℕ) (links : List (ℕ × ℕ)) (visited : List ℕ) (i : ℕ) (rest : List ℕ)
    (indegree : ℕ → ℕ) (q : IsQueued n (left links visited) [] (visited ++ i ∷ rest) indegree) where
  front_once : distinct (i ∷ (visited ++ rest)) ≡ true
  front_once = sym (distinct-middle i visited rest) ∙ q.once

  front_unvisited : has i visited ≡ false
  unfolding distinct
  front_unvisited = ground (arith, front_once, has-append i visited rest)

  front_free : left links visited i ≡ 0
  unfolding has occurs
  front_free = ground (arith, q.ready i, has-middle i i visited rest)

  no_targets :
      (x : ℕ)
      → left links visited x + occurs x []
        ≡ left links (i ∷ visited) x + occurs x (targets_of links i)
  unfolding occurs
  no_targets x = let e = left_visit links visited i x front_unvisited in omega arith

  -- The state in which the targets of `i` are relaxed.
  opened :
      IsQueued n (left links (i ∷ visited)) (targets_of links i) (i ∷ (visited ++ rest)) indegree
  opened = record {
    counts = λ x. q.counts x ∙ no_targets x;
    once = front_once;
    within = sym (below-middle i n visited rest) ∙ q.within;
    ready = λ x h. sym (no_targets x) ∙ q.ready x (has-middle i x visited rest ∙ h);
    complete = λ x b z. sym (has-middle i x visited rest) ∙ q.complete x b (no_targets x ∙ z);
  }

-- The loop came to its end, and what it visited.
abbrev pub Ends : ℕ → List (ℕ × ℕ) → Progress → Type 0
Ends n links p = (all : List ℕ) × IsVisit n links all p × (p.queue ≡ [])

module _ (n : ℕ) (links : List (ℕ × ℕ)) (ends : ends_below n links ≡ true) (outgoing : ℕ → List ℕ)
    (listed : (i : ℕ) → outgoing i ≡ targets_of links i) where
  -- One round.
  step-IsVisit :
      (visited : List ℕ) (i : ℕ) (rest : List ℕ) (p : Progress)
      → p.queue ≡ i ∷ rest
      → IsVisit n links visited p
      → let (indegree, queue) = relax (outgoing i) p.indegree rest in
        IsVisit n links
          (i ∷ visited)
          (record { indegree = indegree; queue = queue; visited = suc p.visited })
  step-IsVisit visited i rest p e v =
      let q =
        subst (λ qs. IsQueued n (left links visited) [] (visited ++ qs) p.indegree) e v.queued in
      record {
        order = (front_free n links visited i rest p.indegree q, v.order);
        number = ap suc v.number;
        queued = rw (listed i) (
            relax-IsQueued n (left links (i ∷ visited)) (targets_of links i) (i ∷ visited) rest
              p.indegree (below-targets_of n links i ends)
              (opened n links visited i rest p.indegree q));
      }

  abbrev next : Progress → ℕ → List ℕ → Progress
  next p i rest =
      let (indegree, queue) = relax (outgoing i) p.indegree rest in
      record { indegree = indegree; queue = queue; visited = suc p.visited }

  visit_stop : (fuel : ℕ) (p : Progress) → p.queue ≡ [] → visit (suc fuel) outgoing p ≡ p
  unfolding visit
  visit_stop fuel p e =
      ap (λ (qs : List ℕ). elim qs [ [] ↦ p | i ∷ rest ↦ visit fuel outgoing (next p i rest) ]) e

  visit_go :
      (fuel : ℕ) (p : Progress) (i : ℕ) (rest : List ℕ)
      → p.queue ≡ i ∷ rest
      → visit (suc fuel) outgoing p ≡ visit fuel outgoing (next p i rest)
  unfolding visit
  visit_go fuel p i rest e = rw (visit, e) refl

  -- Where each index was visited the queue is empty.
  visited_all :
      (visited : List ℕ) (p : Progress)
      → length visited ≡ n
      → IsVisit n links visited p
      → p.queue ≡ []
  visited_all visited p e v =
      none_left p.queue (distinct_bound n (visited ++ p.queue) v.queued.once v.queued.within)
    where
      none_left : (qs : List ℕ) → length (visited ++ qs) ≤ n → qs ≡ []
      none_left [] h = refl
      none_left (q ∷ qs) h = let l = length-append visited (q ∷ qs) in absurd (omega arith)

  visited_on :
      (fuel : ℕ) (visited : List ℕ) (p : Progress)
      → IsVisit n links visited p
      → ((i : ℕ) (rest : List ℕ)
          → p.queue ≡ i ∷ rest
          → Ends n links (visit fuel outgoing (next p i rest)))
      → Ends n links (visit (suc fuel) outgoing p)
  visited_on fuel visited p v go = split p.queue refl
    where
      split : (qs : List ℕ) → p.queue ≡ qs → Ends n links (visit (suc fuel) outgoing p)
      split [] f = subst (Ends n links) (sym (visit_stop fuel p f)) (visited, v, f)
      split (i ∷ rest) f = subst (Ends n links) (sym (visit_go fuel p i rest f)) (go i rest f)

  -- With fuel for the indices that are not visited yet the queue is empty at the end.
  pub visit-Ends :
      (fuel : ℕ) (visited : List ℕ) (p : Progress)
      → length visited + fuel ≡ n
      → IsVisit n links visited p
      → Ends n links (visit fuel outgoing p)
  unfolding visit
  visit-Ends zero visited p e v = (visited, v, visited_all visited p (omega arith) v)
  visit-Ends (suc fuel) visited p e v = visited_on fuel visited p v (λ i rest f.
      visit-Ends fuel (i ∷ visited) (next p i rest) (omega arith)
        (step-IsVisit visited i rest p f v))
