-- ===== src/Quota/Pricing/Bounds.antt =====
-- What a price comes to where no product leaves the range of `i128`: the ceiling of the exact cost.
use yunova.Base.{ℕ, ◌+◌, ◌-◌, ◌*◌, ◌/◌, ◌^◌, ◌≤◌, ◌<◌, ◌≡◌, min, arith}
use yunova.Base.Int.{pos, negsuc, max_i64, add_i128, clamp, add_i128-pos, mul_i128-pos}
use yunova.Quota.Pricing.{micro_quota_for_micro_usd}

-- p / d, rounded up.
abbrev pub ceil_div : ℕ → ℕ → ℕ
ceil_div p d = (p + d - 1) / d

abbrev pub capped : ℕ → ℕ
capped n = min n (2 ^ 63 - 1)

pub less_one : (n : ℕ) → 1 ≤ n → n ≤ 2 ^ 127 → add_i128 (pos n) (negsuc 0) ≡ pos (n - 1)
unfolding add_i128
less_one n h k = ground arith

pub clamp-capped : (n : ℕ) → clamp (pos n) (pos 0) max_i64 ≡ pos (capped n)
unfolding clamp
clamp-capped n = ground arith

pub le-mul_pos : (a b c : ℕ) → 0 < b → a * b ≤ c → a ≤ c
le-mul_pos a b c h k = grind arith

-- A positive price is converted to the ceiling of price * rate * markup, in micro-quota.
pub converted :
    (m u k : ℕ)
    → 0 < m
    → 0 < u
    → 0 < k
    → m * u * k + 100_000_000 < 2 ^ 127
    → micro_quota_for_micro_usd
        (record { usd_to_cny_micro = pos u; multiplier_percent = pos k })
        (pos m)
      ≡ pos (capped (ceil_div (m * u * k) 100_000_000))
unfolding micro_quota_for_micro_usd
converted m u k hm hu hk h =
    let small = le-mul_pos (m * u) k (m * u * k) hk (omega arith) in
    let p = m * u * k in
    rw
      (
        mul_i128-pos m u (omega arith),
        mul_i128-pos (m * u) k (omega arith),
        add_i128-pos p 100_000_000 (omega arith),
        less_one (p + 100_000_000) (omega arith) (omega arith),
        clamp-capped,
      )
      (ground arith)
