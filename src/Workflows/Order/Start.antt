-- ===== src/Workflows/Order/Start.antt =====
-- The loop of src/workflows.rs from its start, on the vectors that the links fill.
use yunova.Base.{
  length-append, sym, ℕ, zero, suc, ◌+◌, ◌≤◌, ◌≡◌, refl, ◌∙◌, true, ◌&&◌, List, [], ◌∷◌, ◌++◌,
  append_one, append_nil, if◌then◌else◌, ◌==◌, ltb, leb, arith, inl, inr, Bool-cases,
}
use yunova.Workflows.Order.{
  Links, no_links, put_at, add_link, add_links, free_from, start, visit_all,
}
use yunova.Workflows.Order.Count.{distinct_bound}
use yunova.Workflows.Order.Relax.{has, distinct, below, occurs}
use yunova.Workflows.Order.Visit.{left, targets_of, ends_below, IsVisit, Ends, visit-Ends}

-- The vectors against the links that they were built from.
add_links-indegree :
    (ps : List (ℕ × ℕ)) (l : Links) (x : ℕ)
    → (add_links ps l).indegree x ≡ l.indegree x + left ps [] x
unfolding add_links add_link put_at left has
add_links-indegree [] l x = omega arith
add_links-indegree ((s, t) ∷ ps) l x = ground (arith, add_links-indegree ps (add_link (s, t) l) x)

one_more :
    (s t : ℕ) (l : Links) (i : ℕ) (rest : List ℕ)
    → (add_link (s, t) l).outgoing i ++ rest ≡ l.outgoing i ++ (if i == s then t ∷ rest else rest)
unfolding add_link put_at
one_more s t l i rest = elim (Bool-cases (i == s)) [
  | inl y ↦ let same : i ≡ s = ground arith in rw y (rw (← same) (append_one (l.outgoing i) t rest))
  | inr n ↦ rw n refl
]

pub add_links-outgoing :
    (ps : List (ℕ × ℕ)) (l : Links) (i : ℕ)
    → (add_links ps l).outgoing i ≡ l.outgoing i ++ targets_of ps i
unfolding add_links targets_of
add_links-outgoing [] l i = sym (append_nil (l.outgoing i))
add_links-outgoing ((s, t) ∷ ps) l i =
    add_links-outgoing ps (add_link (s, t) l) i ∙ one_more s t l i (targets_of ps i)

has-free_from :
    (d : ℕ → ℕ) (x i m : ℕ) → has x (free_from d i m) ≡ (leb i x && ltb x (i + m)) && d x == 0
unfolding has free_from
has-free_from d x i zero = ground arith
has-free_from d x i (suc m) = ground (arith, has-free_from d x (suc i) m)

distinct-free_from : (d : ℕ → ℕ) (i m : ℕ) → distinct (free_from d i m) ≡ true
unfolding distinct free_from
distinct-free_from d i zero = refl
distinct-free_from d i (suc m) =
    ground (arith, distinct-free_from d (suc i) m, has-free_from d i (suc i) m)

below-free_from : (d : ℕ → ℕ) (n i m : ℕ) → i + m ≤ n → below n (free_from d i m) ≡ true
unfolding below free_from
below-free_from d n i zero h = refl
below-free_from d n i (suc m) h = ground (arith, below-free_from d n (suc i) m)

start-IsVisit :
    (n : ℕ) (links : List (ℕ × ℕ)) → IsVisit n links [] (start n (add_links links no_links))
unfolding start occurs
start-IsVisit n links =
    let d = (add_links links no_links).indegree in
    let e = λ (x : ℕ). add_links-indegree links no_links x in
    record {
      order = tt;
      number = refl;
      queued = record {
        counts = λ x. e x ∙ (omega arith);
        once = distinct-free_from d 0 n;
        within = below-free_from d n 0 n (omega arith);
        ready = λ x h. ground (arith, has-free_from d x 0 n, e x);
        complete = λ x b z. ground (arith, has-free_from d x 0 n, e x);
      };
    }

pub visit_all-Ends :
    (n : ℕ) (links : List (ℕ × ℕ))
    → ends_below n links ≡ true
    → Ends n links (visit_all n (add_links links no_links))
unfolding visit_all
visit_all-Ends n links ends =
    let l = add_links links no_links in
    visit-Ends n links ends l.outgoing (add_links-outgoing links no_links) n [] (start n l)
      (omega arith) (start-IsVisit n links)

-- The loop over the queue ends: with fuel for as many rounds as there are nodes the queue is empty, and
-- no more nodes were visited than there are, whatever links below that number the vectors hold.
pub visit_all_ends :
    (n : ℕ) (links : List (ℕ × ℕ))
    → ends_below n links ≡ true
    → let p = visit_all n (add_links links no_links) in (p.queue ≡ []) × (p.visited ≤ n)
visit_all_ends n links ends =
    let (visited, v, empty) = visit_all-Ends n links ends in
    let p = visit_all n (add_links links no_links) in
    let few = distinct_bound n (visited ++ p.queue) v.queued.once v.queued.within in
    let long = length-append visited p.queue in let number = v.number in (empty, omega arith)
