-- ===== src/Quota/Pricing/Chat.antt =====
-- The cost of a chat completion, over token counts and prices that are not negative.
use yunova.Base.{
  ℕ, zero, suc, ◌+◌, ◌-◌, ◌*◌, ◌^◌, ◌≤◌, ◌<◌, ◌≡◌, refl, ap, ◌∙◌, Option, none, some, arith,
}
use yunova.Base.Int.{ℤ, pos, max_ℤ, add_i128-pos, mul_i128-pos, sub_i64-pos, ◌≤ℤ◌}
use yunova.Schema.{TokenUsage}
use yunova.Quota.Pricing.{
  QuotaRate, micro_quota_for_micro_usd, billable_input, micro_cost, chat_quota_cost,
}
use yunova.Quota.Pricing.Bounds.{ceil_div, capped, less_one, clamp-capped, converted}

-- A rate and a markup, and the prices of a model.
pub record Tariff : Type 0 where
  pub cny : ℕ
  pub markup : ℕ
  pub input_price : ℕ
  pub output_price : ℕ
  pub cached_price : Option ℕ

abbrev pub rate_of : Tariff → QuotaRate
rate_of t = record { usd_to_cny_micro = pos t.cny; multiplier_percent = pos t.markup }

abbrev pub cached_rate : Tariff → ℕ
cached_rate t = elim t.cached_price [ none ↦ t.input_price | some p ↦ p ]

abbrev pub as_i64 : Option ℕ → Option ℤ
as_i64 none = none
as_i64 (some p) = some (pos p)

-- Token counts, `cached` being a part of `input`.
pub record Tokens : Type 0 where
  pub input : ℕ
  pub output : ℕ
  pub cached : ℕ

abbrev pub usage_of : Tokens → TokenUsage
usage_of u = record { input = pos u.input; output = pos u.output; cached_input = pos u.cached }

-- What `chat_quota_cost` charges for these tokens under this tariff.
abbrev pub charge : Tariff → Tokens → ℤ
charge t u =
    chat_quota_cost (rate_of t) (pos t.input_price) (pos t.output_price) (as_i64 t.cached_price)
      (usage_of u)

-- The exact cost in micro-USD per million tokens.
abbrev pub weight : Tariff → Tokens → ℕ
weight t u =
    (u.input - u.cached) * t.input_price + u.output * t.output_price + u.cached * cached_rate t

abbrev pub micro_usd : ℕ → ℕ
micro_usd w = capped (ceil_div w 1_000_000)

-- The counts are those of one request, and no product leaves the range of `i128`.
pub record InRange (t : Tariff) (u : Tokens) : Type 0 where
  pub subset : u.cached ≤ u.input
  pub counts : u.input < 2 ^ 63
  pub weights : weight t u + 1_000_000 < 2 ^ 127
  pub scaled : micro_usd (weight t u) * t.cny * t.markup + 100_000_000 < 2 ^ 127

billable_input-pos :
    (u : Tokens)
    → u.cached ≤ u.input
    → u.input < 2 ^ 63
    → billable_input (usage_of u) ≡ pos (u.input - u.cached)
unfolding billable_input
billable_input-pos u h k = rw (sub_i64-pos u.input u.cached h (omega arith)) (ground arith)

micro_usd_zero : micro_usd 0 ≡ 0
micro_usd_zero = refl

converted_any :
    (m u k : ℕ)
    → 0 < u
    → 0 < k
    → m * u * k + 100_000_000 < 2 ^ 127
    → micro_quota_for_micro_usd
        (record { usd_to_cny_micro = pos u; multiplier_percent = pos k })
        (pos m)
      ≡ pos (capped (ceil_div (m * u * k) 100_000_000))
unfolding micro_quota_for_micro_usd
converted_any zero u k hu hk h = ground arith
converted_any (suc m) u k hu hk h = converted (suc m) u k (omega arith) hu hk h

max-pos : (n : ℕ) → max_ℤ (pos n) (pos 0) ≡ pos n
max-pos n = ground arith

cached_rate-max :
    (t : Tariff)
    → max_ℤ (elim (as_i64 t.cached_price) [ none ↦ pos t.input_price | some p ↦ p ]) (pos 0)
      ≡ pos (cached_rate t)
cached_rate-max t = ground arith

micro_cost_exact :
    (t : Tariff) (u : Tokens)
    → InRange t u
    → micro_cost (pos t.input_price) (pos t.output_price) (pos (cached_rate t)) (usage_of u)
      ≡ pos (weight t u)
unfolding micro_cost
micro_cost_exact t u h = rw (
  billable_input-pos u h.subset h.counts,
  max-pos t.input_price,
  max-pos u.output,
  max-pos t.output_price,
  max-pos u.cached,
  mul_i128-pos (u.input - u.cached) t.input_price (omega (arith, h)),
  mul_i128-pos u.output t.output_price (omega (arith, h)),
  mul_i128-pos u.cached (cached_rate t) (omega (arith, h)),
  add_i128-pos ((u.input - u.cached) * t.input_price) (u.output * t.output_price)
      (omega (arith, h)),
  add_i128-pos ((u.input - u.cached) * t.input_price + u.output * t.output_price)
      (u.cached * cached_rate t) (omega (arith, h)),
)

-- Where no product leaves the range of `i128`, the cached tokens are a part of the input and the rate
-- and the markup are positive, the charge is the exact cost of the tokens in micro-USD rounded up, then
-- that times the rate and the markup rounded up, each at most 2 ^ 63 - 1.
pub charge_exact :
    (t : Tariff) (u : Tokens)
    → InRange t u
    → 0 < t.cny
    → 0 < t.markup
    → charge t u ≡ pos (capped (ceil_div (micro_usd (weight t u) * t.cny * t.markup) 100_000_000))
unfolding chat_quota_cost
charge_exact t u h hc hm =
    rw
      (
        cached_rate-max t,
        micro_cost_exact t u h,
        add_i128-pos (weight t u) 1_000_000 (omega arith),
        less_one (weight t u + 1_000_000) (omega arith) (omega arith),
        clamp-capped,
      )
      (converted_any (micro_usd (weight t u)) t.cny t.markup hc hm h.scaled)

mul_mono : (a b c : ℕ) → a ≤ b → a * c ≤ b * c
mul_mono a b c h = grind arith

mul_pos : (a b : ℕ) → 0 < a → 0 < b → 0 < a * b
mul_pos a b h k = grind arith

scaled_mono : (a b u k : ℕ) → a ≤ b → a * u * k ≤ b * u * k
scaled_mono a b u k h = mul_mono (a * u) (b * u) k (mul_mono a b u h)

-- A greater weight never costs less.
charge_of_weight :
    (t : Tariff) (u v : Tokens)
    → InRange t u
    → InRange t v
    → 0 < t.cny
    → 0 < t.markup
    → weight t u ≤ weight t v
    → charge t u ≤ℤ charge t v
charge_of_weight t u v hu hv hc hm h =
    let a = micro_usd (weight t u) in
    let b = micro_usd (weight t v) in
    let le : a ≤ b = omega arith in
    rw (charge_exact t u hu hc hm, charge_exact t v hv hc hm)
      (omega (arith, scaled_mono a b t.cny t.markup le))

-- Within the range of `charge_exact`, tokens whose weight is positive cost 1 micro-quota at least.
charge_pos :
    (t : Tariff) (u : Tokens)
    → InRange t u
    → 0 < t.cny
    → 0 < t.markup
    → 0 < weight t u
    → pos 1 ≤ℤ charge t u
charge_pos t u h hc hm hw =
    let a = micro_usd (weight t u) in
    let p : 0 < a * t.cny * t.markup =
      mul_pos (a * t.cny) t.markup (mul_pos a t.cny (omega arith) hc) hm in
    rw (charge_exact t u h hc hm) (omega arith)

-- Within the range of `charge_exact`, more tokens of each kind (uncached input, output and cached input)
-- never cost less.
charge_mono :
    (t : Tariff) (u v : Tokens)
    → InRange t u
    → InRange t v
    → 0 < t.cny
    → 0 < t.markup
    → u.input - u.cached ≤ v.input - v.cached
    → u.output ≤ v.output
    → u.cached ≤ v.cached
    → charge t u ≤ℤ charge t v
charge_mono t u v hu hv hc hm i o c = charge_of_weight t u v hu hv hc hm (
    omega (
      arith,
      mul_mono (u.input - u.cached) (v.input - v.cached) t.input_price i,
      mul_mono u.output v.output t.output_price o,
      mul_mono u.cached v.cached (cached_rate t) c,
    ))

abbrev pub uncached : Tokens → Tokens
uncached u = record u { cached = 0 }

add_mul : (d c p : ℕ) → d * p + c * p ≡ (d + c) * p
add_mul d c p = omega arith

sub_split : (i c p : ℕ) → c ≤ i → (i - c) * p + c * p ≡ (i - 0) * p
sub_split i c p h =
    add_mul (i - c) c p ∙ ap (λ (n : ℕ). n * p) (let e : i - c + c ≡ i - 0 = omega arith in e)

mul_mono_left : (a b c : ℕ) → a ≤ b → c * a ≤ c * b
mul_mono_left a b c h = grind arith

charge_of_eq :
    (t : Tariff) (u v : Tokens)
    → InRange t u
    → InRange t v
    → 0 < t.cny
    → 0 < t.markup
    → weight t u ≡ weight t v
    → charge t u ≡ charge t v
charge_of_eq t u v hu hv hc hm e = rw (charge_exact t u hu hc hm, charge_exact t v hv hc hm, e)

-- Where cached tokens have no price above that of input, and neither cost leaves the range, a cache hit
-- never raises the charge, the rate and the markup being positive.
charge_cached :
    (t : Tariff) (u : Tokens)
    → InRange t u
    → InRange t (uncached u)
    → 0 < t.cny
    → 0 < t.markup
    → cached_rate t ≤ t.input_price
    → charge t u ≤ℤ charge t (uncached u)
charge_cached t u h k hc hm r =
    let split = sub_split u.input u.cached t.input_price h.subset in
    let less = mul_mono_left (cached_rate t) t.input_price u.cached r in
    charge_of_weight t u (uncached u) h k hc hm (omega arith)

-- Where cached tokens have no price of their own, and neither cost leaves the range, a cache hit does
-- not change the charge, the rate and the markup being positive.
charge_unpriced_cache :
    (t : Tariff) (u : Tokens)
    → InRange t u
    → InRange t (uncached u)
    → 0 < t.cny
    → 0 < t.markup
    → t.cached_price ≡ none
    → charge t u ≡ charge t (uncached u)
charge_unpriced_cache t u h k hc hm e =
    charge_of_eq t u (uncached u) h k hc hm
      (same (sub_split u.input u.cached t.input_price h.subset))
  where
    same :
        (u.input - u.cached) * t.input_price + u.cached * t.input_price
          ≡ (u.input - 0) * t.input_price
        → weight t u ≡ weight t (uncached u)
    same s = rw e (omega arith)
