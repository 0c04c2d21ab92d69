-- ===== src/AgentRpc/Stream.antt =====
-- The decoder of src/agent_rpc.rs reads the same records however a stream is cut into chunks.
use yunova.Base.{
  ℕ, zero, suc, ◌≤◌, ◌<◌, ◌≡◌, refl, sym, ap, ◌∙◌, Bool, true, false, Option, none, some, List, [],
  ◌∷◌, ◌++◌, ◌==◌, length, length-append, arith, ◌⊎◌, inl, inr, Bool-cases, Option-cases, any,
}
use mathlib.Core.List.{append_assoc}
use yunova.Base.Text.{split_once}
use yunova.Usage.Json.{Value}
use yunova.AgentRpc.{record_of, drain}

-- What `split_once` answers.
abbrev Cut : Type 0
Cut = Option (List ℕ × List ℕ)

abbrev pub has : ℕ → List ℕ → Bool
has d cs = any (λ c. c == d) cs

pub split_once_at :
    (d : ℕ) (l r : List ℕ) → has d l ≡ false → split_once d (l ++ d ∷ r) ≡ some (l, r)
unfolding split_once
split_once_at d [] r h = ground arith
split_once_at d (c ∷ cs) r h = ground (arith, split_once_at d cs r)

found_here :
    (c d : ℕ) (cs l r : List ℕ)
    → (c == d) ≡ true
    → ◌≡◌ {A = Cut} (some ([], cs)) (some (l, r))
    → (c ∷ cs ≡ l ++ d ∷ r) × (has d l ≡ false)
found_here c d cs l r here e =
    let el : [] ≡ l = (cc) in
    let er : cs ≡ r = (cc) in
    let same : c ≡ d = ground arith in rw (← el, ← er) (ap (λ k. k ∷ cs) same, refl)

found_later :
    (c d : ℕ) (cs l r l' r' : List ℕ)
    → (c == d) ≡ false
    → cs ≡ l' ++ d ∷ r'
    → has d l' ≡ false
    → ◌≡◌ {A = Cut} (some (c ∷ l', r')) (some (l, r))
    → (c ∷ cs ≡ l ++ d ∷ r) × (has d l ≡ false)
found_later c d cs l r l' r' later x h e =
    let el : c ∷ l' ≡ l = (cc) in
    let er : r' ≡ r = (cc) in rw (← el, ← er) (ap (λ k. c ∷ k) x, rw later h)

split_once_found :
    (d : ℕ) (x l r : List ℕ) → split_once d x ≡ some (l, r) → (x ≡ l ++ d ∷ r) × (has d l ≡ false)
unfolding split_once
split_once_found d [] l r e = absurd (ground arith)
split_once_found d (c ∷ cs) l r e = elim (Bool-cases (c == d)) [
  | inl here ↦ found_here c d cs l r here (rw here at e)
  | inr later ↦ elim (Option-cases (split_once d cs)) [
    | inl n ↦ let e' = rw (later, n) at e in absurd (ground arith)
    | inr ((l', r'), s) ↦
        let (x, h) = split_once_found d cs l' r' s in
        found_later c d cs l r l' r' later x h (rw (later, s) at e)
  ]
]

pub split_once-shorter :
    (d : ℕ) (x l r : List ℕ) → split_once d x ≡ some (l, r) → length r < length x
split_once-shorter d x l r e =
    rw (split_once_found d x l r e).0 (omega (arith, length-append {0} l (d ∷ r)))

split_once-append :
    (d : ℕ) (x y l r : List ℕ)
    → split_once d x ≡ some (l, r)
    → split_once d (x ++ y) ≡ some (l, r ++ y)
split_once-append d x y l r e =
    let (at, clear) = split_once_found d x l r e in
    ap (λ z. split_once d (z ++ y)) at
    ∙ ap (split_once d) (append_assoc l (d ∷ r) y)
    ∙ split_once_at d l (r ++ y) clear

module _ (parse : List ℕ → Option Value) where
  pub drain-none : (fuel : ℕ) (x : List ℕ) → split_once 10 x ≡ none → drain parse fuel x ≡ ([], x)
  unfolding drain
  drain-none zero x e = refl
  drain-none (suc fuel) x e = rw (e, drain) refl

  drain-some :
      (fuel : ℕ) (x l r : List ℕ)
      → split_once 10 x ≡ some (l, r)
      → drain parse (suc fuel) x
        ≡ (record_of parse l ++ (drain parse fuel r).0, (drain parse fuel r).1)
  unfolding drain
  drain-some fuel x l r e = rw (e, drain) refl

  -- Without fuel, or without a line, nothing is read.
  drain_stuck :
      (f g : ℕ) (x : List ℕ)
      → length x ≤ f
      → length x ≤ g
      → (f ≡ 0) ⊎ (g ≡ 0)
      → drain parse f x ≡ drain parse g x
  drain_stuck f g x h k z = elim (Option-cases (split_once 10 x)) [
    | inl n ↦ drain-none f x n ∙ sym (drain-none g x n)
    | inr ((l, r), s) ↦
        let shorter = split_once-shorter 10 x l r s in
        elim z [ inl a ↦ absurd (omega arith) | inr b ↦ absurd (omega arith) ]
  ]

  -- Any fuel from the length on gives the same.
  drain_enough :
      (f g : ℕ) (x : List ℕ) → length x ≤ f → length x ≤ g → drain parse f x ≡ drain parse g x
  drain_enough zero g x h k = drain_stuck 0 g x h k (inl refl)
  drain_enough (suc f) zero x h k = drain_stuck (suc f) 0 x h k (inr refl)
  drain_enough (suc f) (suc g) x h k = elim (Option-cases (split_once 10 x)) [
    | inl n ↦ drain-none (suc f) x n ∙ sym (drain-none (suc g) x n)
    | inr ((l, r), s) ↦
        let shorter = split_once-shorter 10 x l r s in
        drain-some f x l r s
        ∙ ap (λ (d : List Value × List ℕ). (record_of parse l ++ d.0, d.1))
            (drain_enough f g r (omega arith) (omega arith))
        ∙ sym (drain-some g x l r s)
  ]

  abbrev pub drained : List ℕ → List Value × List ℕ
  drained x = drain parse (length x) x

  pub drained-some :
      (x l r : List ℕ)
      → split_once 10 x ≡ some (l, r)
      → drained x ≡ (record_of parse l ++ (drained r).0, (drained r).1)
  drained-some x l r s =
      let shorter = split_once-shorter 10 x l r s in
      drain_enough (length x) (suc (length x)) x (omega arith) (omega arith)
      ∙ drain-some (length x) x l r s
      ∙ ap (λ (d : List Value × List ℕ). (record_of parse l ++ d.0, d.1))
          (drain_enough (length x) (length r) r (omega arith) (omega arith))

  -- What a text reads, and leaves to stand before what comes next.
  abbrev pub then_more : List ℕ → List Value × List ℕ → List Value × List ℕ
  then_more y d = (d.0 ++ (drained (d.1 ++ y)).0, (drained (d.1 ++ y)).1)

  append_none : (x y : List ℕ) → split_once 10 x ≡ none → drained (x ++ y) ≡ then_more y (drained x)
  append_none x y n = sym (ap (then_more y) (drain-none (length x) x n))

  pub drained-append :
      (n : ℕ) (x y : List ℕ) → length x ≤ n → drained (x ++ y) ≡ then_more y (drained x)
  drained-append zero x y h = elim (Option-cases (split_once 10 x)) [
    | inl n ↦ append_none x y n
    | inr ((l, r), s) ↦ let shorter = split_once-shorter 10 x l r s in absurd (omega arith)
  ]
  drained-append (suc n) x y h = elim (Option-cases (split_once 10 x)) [
    | inl none_left ↦ append_none x y none_left
    | inr ((l, r), s) ↦
        let shorter = split_once-shorter 10 x l r s in
        let left = drained ((drained r).1 ++ y) in
        drained-some (x ++ y) l (r ++ y) (split_once-append 10 x y l r s)
        ∙ ap (λ (d : List Value × List ℕ). (record_of parse l ++ d.0, d.1))
            (drained-append n r y (omega arith))
        ∙ ap (λ (vs : List Value). (vs, left.1))
            (sym (append_assoc (record_of parse l) (drained r).0 left.0))
        ∙ sym (ap (then_more y) (drained-some x l r s))
  ]
