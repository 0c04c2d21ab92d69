-- ===== src/Workflows/Order/Relax.antt =====
-- What the inner loop of the queue in src/workflows.rs keeps.
use yunova.Base.{
  ap, subst, ℕ, suc, ◌+◌, ◌-◌, ◌<◌, ◌≡◌, refl, Bool, true, false, not, ◌&&◌, ◌||◌, List, [], ◌∷◌,
  ◌++◌, if◌then◌else◌, ◌==◌, ltb, arith, inl, inr, Bool-cases,
}
use yunova.Workflows.Order.{put_at, relax}

unfoldable pub has : ℕ → List ℕ → Bool
has x [] = false
has x (y ∷ ys) = x == y || has x ys

unfoldable pub distinct : List ℕ → Bool
distinct [] = true
distinct (x ∷ xs) = not (has x xs) && distinct xs

unfoldable pub below : ℕ → List ℕ → Bool
below n [] = true
below n (x ∷ xs) = ltb x n && below n xs

unfoldable pub occurs : ℕ → List ℕ → ℕ
occurs x [] = 0
occurs x (y ∷ ys) = if x == y then suc (occurs x ys) else occurs x ys

pub has-append_one : (x y : ℕ) (ys : List ℕ) → has x (ys ++ y ∷ []) ≡ has x ys || x == y
unfolding has
has-append_one x y [] = ground arith
has-append_one x y (z ∷ ys) = ground (arith, has-append_one x y ys)

pub distinct-append_one :
    (y : ℕ) (ys : List ℕ) → has y ys ≡ false → distinct ys ≡ true → distinct (ys ++ y ∷ []) ≡ true
unfolding distinct has
distinct-append_one y [] h d = refl
distinct-append_one y (z ∷ ys) h d = ground (arith, distinct-append_one y ys, has-append_one z y ys)

pub below-append_one :
    (n y : ℕ) (ys : List ℕ) → y < n → below n ys ≡ true → below n (ys ++ y ∷ []) ≡ true
unfolding below
below-append_one n y [] h b = ground arith
below-append_one n y (z ∷ ys) h b = ground (arith, below-append_one n y ys)

-- Of the indices that were seen, which are those visited and then those queued: none is there twice,
-- and they are exactly the indices without a link that is left. `final x` counts the links to `x` that
-- are left when the targets are done.
pub record IsQueued (n : ℕ) (final : ℕ → ℕ) (targets seen : List ℕ) (indegree : ℕ → ℕ)
    : Type 0 where
  pub counts : (x : ℕ) → indegree x ≡ final x + occurs x targets
  pub once : distinct seen ≡ true
  pub within : below n seen ≡ true
  pub ready : (x : ℕ) → has x seen ≡ true → final x + occurs x targets ≡ 0
  pub complete : (x : ℕ) → x < n → final x + occurs x targets ≡ 0 → has x seen ≡ true

append_assoc : (xs ys : List ℕ) (y : ℕ) → (xs ++ ys) ++ y ∷ [] ≡ xs ++ (ys ++ y ∷ [])
append_assoc [] ys y = refl
append_assoc (x ∷ xs) ys y = ap (λ zs. x ∷ zs) (append_assoc xs ys y)

occurs-cons_same : (x : ℕ) (ys : List ℕ) → occurs x (x ∷ ys) ≡ suc (occurs x ys)
unfolding occurs
occurs-cons_same x ys = ground arith

module _ (n : ℕ) (final : ℕ → ℕ) (t : ℕ) (ts seen : List ℕ) (indegree : ℕ → ℕ)
    (q : IsQueued n final (t ∷ ts) seen indegree) where
  -- The target was not seen yet, since it has a link that is left.
  target_new : has t seen ≡ false
  target_new = elim (Bool-cases (has t seen)) [
    | inl y ↦ let h = q.ready t y in let o = occurs-cons_same t ts in absurd (omega arith)
    | inr n ↦ n
  ]

  fewer_counts : (x : ℕ) → put_at t (indegree t - 1) indegree x ≡ final x + occurs x ts
  unfolding put_at occurs
  fewer_counts x = ground (arith, q.counts x, q.counts t)

  fewer_ready : (x : ℕ) → has x seen ≡ true → final x + occurs x ts ≡ 0
  unfolding occurs
  fewer_ready x h = ground (arith, q.ready x)

  fewer_complete :
      (x : ℕ) → x < n → (x == t) ≡ false → final x + occurs x ts ≡ 0 → has x seen ≡ true
  unfolding occurs
  fewer_complete x b d e = ground (arith, q.complete x)

  last : indegree t - 1 ≡ final t + occurs t ts
  last = let c = q.counts t in let o = occurs-cons_same t ts in omega arith

  kept :
      (indegree t - 1 == 0) ≡ false → IsQueued n final ts seen (put_at t (indegree t - 1) indegree)
  kept e = record {
    counts = fewer_counts;
    once = q.once;
    within = q.within;
    ready = fewer_ready;
    complete = λ x b z. ground (arith, last, fewer_complete x b);
  }

  queued :
      t < n
      → (indegree t - 1 == 0) ≡ true
      → IsQueued n final ts (seen ++ t ∷ []) (put_at t (indegree t - 1) indegree)
  queued small e = record {
    counts = fewer_counts;
    once = distinct-append_one t seen target_new q.once;
    within = below-append_one n t seen small q.within;
    ready = λ x h. ground (arith, last, has-append_one x t seen, fewer_ready x);
    complete = λ x b z. ground (arith, has-append_one x t seen, fewer_complete x b);
  }

-- The inner loop keeps the queue in order, and at its end no target is left.
pub relax-IsQueued :
    (n : ℕ) (final : ℕ → ℕ) (ts done queue : List ℕ) (indegree : ℕ → ℕ)
    → below n ts ≡ true
    → IsQueued n final ts (done ++ queue) indegree
    → IsQueued n final [] (done ++ (relax ts indegree queue).1) (relax ts indegree queue).0
unfolding relax below
relax-IsQueued n final [] done queue indegree b q = q
relax-IsQueued n final (t ∷ ts) done queue indegree b q =
    let small : t < n = ground arith in
    let rest : below n ts ≡ true = ground arith in
    elim (Bool-cases (indegree t - 1 == 0)) [
      | inl y ↦
          rw (relax, y)
            (relax-IsQueued n final ts done (queue ++ t ∷ []) (put_at t (indegree t - 1) indegree)
              rest
              (subst (λ seen. IsQueued n final ts seen (put_at t (indegree t - 1) indegree))
                (append_assoc done queue t)
                (queued n final t ts (done ++ queue) indegree q small y)))
      | inr z ↦
          rw (relax, z)
            (relax-IsQueued n final ts done queue (put_at t (indegree t - 1) indegree) rest
              (kept n final t ts (done ++ queue) indegree q z))
    ]
