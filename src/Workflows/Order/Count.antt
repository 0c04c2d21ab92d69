-- ===== src/Workflows/Order/Count.antt =====
-- Distinct indices below a bound: there are no more of them than the bound, and when there are as many
-- then each index is there.
use yunova.Base.{
  ℕ, zero, suc, ◌≤◌, ◌<◌, ◌≡◌, refl, true, false, List, [], ◌∷◌, length, if◌then◌else◌, ◌==◌, arith,
  inl, inr, Bool-cases,
}
use yunova.Workflows.Order.Relax.{has, distinct, below}

remove : ℕ → List ℕ → List ℕ
remove m [] = []
remove m (x ∷ xs) = let rest = remove m xs in if x == m then xs else x ∷ rest

length-remove : (m : ℕ) (xs : List ℕ) → length xs ≤ suc (length (remove m xs))
unfolding remove
length-remove m [] = omega arith
length-remove m (x ∷ xs) = ground (arith, length-remove m xs)

has-remove : (m x : ℕ) (xs : List ℕ) → has x xs ≡ false → has x (remove m xs) ≡ false
unfolding remove has
has-remove m x [] h = refl
has-remove m x (y ∷ xs) h = ground (arith, has-remove m x xs)

distinct-remove : (m : ℕ) (xs : List ℕ) → distinct xs ≡ true → distinct (remove m xs) ≡ true
unfolding remove distinct
distinct-remove m [] h = refl
distinct-remove m (x ∷ xs) h = ground (arith, distinct-remove m xs, has-remove m x xs)

below_absent :
    (m : ℕ) (xs : List ℕ) → has m xs ≡ false → below (suc m) xs ≡ true → below m xs ≡ true
unfolding has below
below_absent m [] h b = refl
below_absent m (x ∷ xs) h b = ground (arith, below_absent m xs)

below-remove :
    (m : ℕ) (xs : List ℕ)
    → distinct xs ≡ true
    → below (suc m) xs ≡ true
    → below m (remove m xs) ≡ true
unfolding remove distinct below
below-remove m [] d b = refl
below-remove m (x ∷ xs) d b = ground (arith, below-remove m xs, below_absent m xs)

pub distinct_bound : (n : ℕ) (xs : List ℕ) → distinct xs ≡ true → below n xs ≡ true → length xs ≤ n
unfolding below
distinct_bound zero [] d b = omega arith
distinct_bound zero (x ∷ xs) d b = absurd (ground arith)
distinct_bound (suc n) xs d b =
    let h = distinct_bound n (remove n xs) (distinct-remove n xs d) (below-remove n xs d b) in
    let l = length-remove n xs in omega arith

pub distinct_full :
    (n : ℕ) (xs : List ℕ) (x : ℕ)
    → distinct xs ≡ true
    → below n xs ≡ true
    → length xs ≡ n
    → x < n
    → has x xs ≡ true
unfolding distinct below
distinct_full n xs x d b l h = elim (Bool-cases (has x xs)) [
  | inl y ↦ y
  | inr z ↦
      let more : length (x ∷ xs) ≤ n =
        distinct_bound n (x ∷ xs) (ground (arith, d, z)) (ground (arith, b, h)) in
      absurd (omega arith)
]

length-remove-has : (m : ℕ) (xs : List ℕ) → has m xs ≡ true → length xs ≡ suc (length (remove m xs))
unfolding remove has
length-remove-has m [] h = absurd (ground arith)
length-remove-has m (x ∷ xs) h = ground (arith, length-remove-has m xs)

remove_other :
    (m x : ℕ) (xs : List ℕ) → (x == m) ≡ false → has x xs ≡ true → has x (remove m xs) ≡ true
unfolding remove has
remove_other m x [] e h = h
remove_other m x (y ∷ xs) e h = ground (arith, remove_other m x xs)

-- Where every index below the bound is there, there are as many indices at least.
pub full_length : (n : ℕ) (xs : List ℕ) → ((x : ℕ) → x < n → has x xs ≡ true) → n ≤ length xs
full_length zero xs h = omega arith
full_length (suc n) xs h =
    let rest =
      full_length n (remove n xs) (λ x b. remove_other n x xs (ground arith) (h x (omega arith))) in
    let l = length-remove-has n xs (h n (omega arith)) in omega arith
