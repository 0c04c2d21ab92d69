-- ===== src/Channels/Balance/Turns.antt =====
-- The round robin of `balance_chain` of src/channels.rs: whose turn it is on the requests to come.
use native.Mathlib.Nat.{add-mul-mod_self_left, mod-add-div}
use yunova.Base.{
  ℕ, zero, suc, ◌+◌, ◌-◌, ◌*◌, ◌/◌, ◌%◌, ◌^◌, ◌≤◌, ◌<◌, ◌≡◌, refl, ap, ◌∙◌, true, List, ◌++◌,
  length, ltb, arith, inl, inr, Bool-cases, leb,
}
use yunova.Base.Int.{ℤ}
use yunova.Channels.Select.{ChannelChoice}
use yunova.Channels.Balance.{Counters, bump, balance_tier}
use yunova.Channels.Balance.Laws.{take, drop, rotate_cut, mod_small, mod_below}

-- The counters after `k` requests that go to this tier.
unfoldable pub after_requests : ℕ → ChannelChoice → List ChannelChoice → Counters → Counters
after_requests zero c group counters = counters
after_requests (suc k) c group counters =
    (balance_tier c group (after_requests k c group counters)).1

ltb-true : (n : ℕ) → 1 < n → ltb 1 n ≡ true
ltb-true n h = ground arith

bump_at : (p : ℤ) (counters : Counters) → bump p counters p ≡ (counters p + 1) % 2 ^ 64
unfolding bump
bump_at p counters = ground arith

next_counters :
    (c : ChannelChoice) (group : List ChannelChoice) (counters : Counters)
    → 1 < length group
    → (balance_tier c group counters).1 ≡ bump c.channel.priority counters
unfolding balance_tier
next_counters c group counters many = rw (ltb-true (length group) many) refl

counter_after :
    (k : ℕ) (c : ChannelChoice) (group : List ChannelChoice) (counters : Counters)
    → let p = c.channel.priority in
      1 < length group
      → counters p + k < 2 ^ 64
      → after_requests k c group counters p ≡ counters p + k
unfolding after_requests
counter_after zero c group counters many h = omega arith
counter_after (suc k) c group counters many h =
    let p = c.channel.priority in
    let sofar = after_requests k c group counters in
    let before = counter_after k c group counters many (omega arith) in
    ap (λ (f : Counters). f p) (next_counters c group sofar many)
    ∙ bump_at p sofar
    ∙ mod_small (sofar p + 1) (2 ^ 64) (omega arith)
    ∙ (omega arith)

-- Some request among the next `n` reaches each residue.
reaches : (v n i : ℕ) → i < n → (k : ℕ) × (k < n) × ((v + k) % n ≡ i)
reaches v n i h =
    let whole = mod-add-div v n in
    let small = mod_below v n (omega arith) in
    let q = v / n in
    elim (Bool-cases (leb (v % n) i)) [
      | inl y ↦
          let r : v % n ≤ i = grind arith in
          let e : v + (i - v % n) ≡ i + n * q = omega arith in
          (
            i - v % n,
            omega arith,
            ap (λ x. x % n) e ∙ add-mul-mod_self_left i n q ∙ mod_small i n h,
          )
      | inr y ↦
          let r : i < v % n = grind arith in
          let e : v + (n + i - v % n) ≡ i + n * suc q = omega arith in
          (
            n + i - v % n,
            omega arith,
            ap (λ x. x % n) e ∙ add-mul-mod_self_left i n (suc q) ∙ mod_small i n h,
          )
    ]

-- In a tier of several channels each of them is tried first by one of the next requests, as many as
-- the tier has channels, and the others are then tried in their order from there on, while the
-- 64-bit counter does not wrap around.
pub balance_tier_turns :
    (c : ChannelChoice) (group : List ChannelChoice) (counters : Counters) (i : ℕ)
    → 1 < length group
    → counters c.channel.priority + length group ≤ 2 ^ 64
    → i < length group
    → (k : ℕ) × (k < length group)
      × ((balance_tier c group (after_requests k c group counters)).0
          ≡ drop i group ++ take i group)
unfolding balance_tier
balance_tier_turns c group counters i many room h =
    let p = c.channel.priority in
    let (k, short, turn) = reaches (counters p) (length group) i h in
    let later = counter_after k c group counters many (omega arith) in
    let at : after_requests k c group counters p % length group ≡ i =
      ap (λ v. v % length group) later ∙ turn in
    (
      k,
      short,
      rw (ltb-true (length group) many) (
          rotate_cut c group (after_requests k c group counters p) (omega arith)
          ∙ ap (λ s. drop s group ++ take s group) at),
    )
