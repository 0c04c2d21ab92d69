-- ===== src/Workflows/Order/Acyclic.antt =====
-- The queue of src/workflows.rs visits every index exactly when the links have a topological order.
use yunova.Base.{
  sym, subst, ℕ, zero, suc, ◌+◌, ◌≤◌, ◌<◌, ◌≡◌, refl, ◌∙◌, ◌↔◌, Bool, true, false, List, [], ◌∷◌,
  ◌++◌, length, append_nil, all, if◌then◌else◌, ◌==◌, ltb, arith, inl, inr, Bool-cases,
}
use yunova.Workflows.Order.{no_links, add_links, visit_all}
use yunova.Workflows.Order.Relax.{has, distinct, occurs, IsQueued}
use yunova.Workflows.Order.Count.{distinct_bound, distinct_full, full_length}
use yunova.Workflows.Order.Visit.{left, ends_below, Ordered}
use yunova.Workflows.Order.Start.{visit_all-Ends}

-- Each link goes from a lower rank to a higher one.
abbrev pub is_ranked : (ℕ → ℕ) → List (ℕ × ℕ) → Bool
is_ranked rank links = all (λ (p : ℕ × ℕ). ltb (rank p.0) (rank p.1)) links

-- The rank of an index is its turn.
turn : List ℕ → ℕ → ℕ
turn [] x = 0
turn (i ∷ visited) x = if x == i then suc (length visited) else turn visited x

turn_bound : (visited : List ℕ) (x : ℕ) → turn visited x ≤ length visited
unfolding turn
turn_bound [] x = omega arith
turn_bound (i ∷ visited) x = ground (arith, turn_bound visited x)

-- No link from outside is left at an index that was visited.
sources_visited :
    (links : List (ℕ × ℕ)) (visited : List ℕ) (s t : ℕ)
    → left ((s, t) ∷ links) visited t ≡ 0
    → has s visited ≡ true
unfolding left
sources_visited links visited s t e = ground arith

left_tail :
    (links : List (ℕ × ℕ)) (visited : List ℕ) (s t x : ℕ)
    → left ((s, t) ∷ links) visited x ≡ 0
    → left links visited x ≡ 0
unfolding left
left_tail links visited s t x e = ground arith

Ordered_tail :
    (links : List (ℕ × ℕ)) (visited : List ℕ) (s t : ℕ)
    → Ordered ((s, t) ∷ links) visited
    → Ordered links visited
Ordered_tail links [] s t o = tt
Ordered_tail links (i ∷ visited) s t o =
    (left_tail links visited s t i o.0, Ordered_tail links visited s t o.1)

has_other : (i s : ℕ) (xs : List ℕ) → has s xs ≡ true → has i xs ≡ false → (s == i) ≡ false
has_other i s xs h n = elim (Bool-cases (s == i)) [
  | inr z ↦ z
  | inl y ↦
      let same : s ≡ i = ground arith in
      let e : has i xs ≡ true = subst (λ j. has j xs ≡ true) same h in absurd (ground arith)
]

-- The source of a link has its turn before the target.
turn_link :
    (links : List (ℕ × ℕ)) (visited : List ℕ) (s t : ℕ)
    → Ordered ((s, t) ∷ links) visited
    → distinct visited ≡ true
    → has t visited ≡ true
    → (turn visited s < turn visited t) × (has s visited ≡ true)
unfolding turn distinct has
turn_link links [] s t o d h = absurd (ground arith)
turn_link links (i ∷ visited) s t o d h = elim (Bool-cases (t == i)) [
  | inl y ↦
      let same : t ≡ i = ground arith in
      let before =
        sources_visited links visited s t
          (subst (λ j. left ((s, t) ∷ links) visited j ≡ 0) (sym same) o.0) in
      let bound = turn_bound visited s in
      let other = has_other i s visited before (ground (arith, d)) in
      (ground (arith, y, other, bound), ground (arith, before))
  | inr n ↦
      let rest = turn_link links visited s t o.1 (ground (arith, d)) (ground (arith, h, n)) in
      let other = has_other i s visited rest.1 (ground (arith, d)) in
      (ground (arith, n, other, rest), ground (arith, rest))
]

turn-is_ranked :
    (n : ℕ) (links : List (ℕ × ℕ)) (visited : List ℕ)
    → ends_below n links ≡ true
    → Ordered links visited
    → distinct visited ≡ true
    → ((x : ℕ) → x < n → has x visited ≡ true)
    → is_ranked (turn visited) links ≡ true
unfolding ends_below
turn-is_ranked n [] visited b o d h = refl
turn-is_ranked n ((s, t) ∷ links) visited b o d h =
    let small : t < n = ground arith in
    let first = turn_link links visited s t o d (h t small) in
    let rest =
      turn-is_ranked n links visited (ground arith) (Ordered_tail links visited s t o) d h in
    ground (arith, first.0, rest)

-- Where all indices of a lower rank were visited no link is left.
left_ranked :
    (n : ℕ) (links : List (ℕ × ℕ)) (rank : ℕ → ℕ) (visited : List ℕ) (x : ℕ)
    → ends_below n links ≡ true
    → is_ranked rank links ≡ true
    → ((s : ℕ) → s < n → rank s < rank x → has s visited ≡ true)
    → left links visited x ≡ 0
unfolding ends_below left
left_ranked n [] rank visited x b r h = refl
left_ranked n ((s, t) ∷ links) rank visited x b r h =
    let rest = left_ranked n links rank visited x (ground arith) (ground arith) h in
    ground (arith, rest, h s)

module _ (n : ℕ) (links : List (ℕ × ℕ)) (ends : ends_below n links ≡ true) where
  -- With an order of the links an empty queue means that every index below a rank was visited.
  ranked_visited :
      (rank : ℕ → ℕ) (visited : List ℕ)
      → is_ranked rank links ≡ true
      → ((x : ℕ) → x < n → left links visited x ≡ 0 → has x visited ≡ true)
      → (k x : ℕ) → x < n
      → rank x < k
      → has x visited ≡ true
  ranked_visited rank visited r c zero x b l = absurd (omega arith)
  ranked_visited rank visited r c (suc k) x b l = c x b (
      left_ranked n links rank visited x ends r
        (λ s small lower. ranked_visited rank visited r c k s small (omega arith)))

  -- All indices are visited exactly when the links have a topological order.
  pub visit_all_iff :
      ((visit_all n (add_links links no_links)).visited ≡ n)
      ↔ ((rank : ℕ → ℕ) × (is_ranked rank links ≡ true))
  unfolding occurs
  visit_all_iff =
      let (visited, v, empty) = visit_all-Ends n links ends in
      let p = visit_all n (add_links links no_links) in
      let q =
        subst (λ qs. IsQueued n (left links visited) [] (visited ++ qs) p.indegree) empty
          v.queued in
      let r =
        subst (λ xs. IsQueued n (left links visited) [] xs p.indegree) (append_nil visited) q in
      (
        λ e. (
          turn visited,
          turn-is_ranked n links visited ends v.order r.once
              (λ x b. distinct_full n visited x r.once r.within (sym v.number ∙ e) b),
        ),
        λ (rank, ok).
            let few = distinct_bound n visited r.once r.within in
            let many = full_length n visited (λ x b.
              ranked_visited rank visited ok (λ y c z. r.complete y c (plus_none z)) (suc (rank x))
                x b (omega arith)) in
            v.number ∙ (omega arith),
      )
    where
      plus_none : {a : ℕ} → a ≡ 0 → a + 0 ≡ 0
      plus_none e = omega arith
