-- ===== src/Quota/Pricing.antt =====
-- The pricing engine of src/quota.rs.
pub mod Bounds
pub mod Chat
use yunova.Base.{ℕ, ◌*◌, Bool, ◌&&◌, ◌||◌, Option, none, some, if◌then◌else◌}
use yunova.Base.Int.{
  ℤ, pos, max_ℤ, ltb_ℤ, leb_ℤ, max_i64, quot, sub_i64, add_i128, mul_i128, clamp, negsuc,
}
use yunova.Schema.{TokenUsage}

abbrev pub micro_usd_per_usd : ℕ
micro_usd_per_usd = 1_000_000

abbrev pub micro_quota : ℕ
micro_quota = 1_000_000

abbrev pub tokens_per_price_unit : ℕ
tokens_per_price_unit = 1_000_000

-- The defaults of the rate and of the grants.
abbrev pub default_usd_to_cny_micro : ℤ
default_usd_to_cny_micro = pos micro_quota

abbrev pub default_signup_grant : ℤ
default_signup_grant = pos micro_quota

abbrev pub default_invite_grant : ℤ
default_invite_grant = pos micro_quota

pub record QuotaRate : Type 0 where
  pub usd_to_cny_micro : ℤ
  pub multiplier_percent : ℤ

-- `QuotaRate::micro_quota_for_micro_usd`
unfoldable pub micro_quota_for_micro_usd : QuotaRate → ℤ → ℤ
micro_quota_for_micro_usd rate micro_usd =
    let scaled = mul_i128 (mul_i128 micro_usd rate.usd_to_cny_micro) rate.multiplier_percent in
    let divisor : ℕ = micro_usd_per_usd * 100 in
    let quota = quot (add_i128 (add_i128 scaled (pos divisor)) (negsuc 0)) divisor in
    if leb_ℤ micro_usd (pos 0)
      || leb_ℤ rate.usd_to_cny_micro (pos 0)
      || leb_ℤ rate.multiplier_percent (pos 0)
    then pos 0
    else clamp quota (pos 0) max_i64

-- `TokenUsage::is_empty`
unfoldable pub is_empty : TokenUsage → Bool
is_empty u = leb_ℤ u.input (pos 0) && leb_ℤ u.output (pos 0)

-- `TokenUsage::billable_input`
unfoldable pub billable_input : TokenUsage → ℤ
billable_input u = max_ℤ (sub_i64 u.input u.cached_input) (pos 0)

abbrev unwrap_or : ℤ → Option ℤ → ℤ
unwrap_or d none = d
unwrap_or d (some p) = p

-- The sum of `chat_quota_cost`: micro-USD, times the tokens that a price is for.
unfoldable pub micro_cost : ℤ → ℤ → ℤ → TokenUsage → ℤ
micro_cost input_price output_price cached_rate usage =
    add_i128
      (add_i128 (mul_i128 (billable_input usage) (max_ℤ input_price (pos 0)))
        (mul_i128 (max_ℤ usage.output (pos 0)) (max_ℤ output_price (pos 0))))
      (mul_i128 (max_ℤ usage.cached_input (pos 0)) cached_rate)

unfoldable pub chat_quota_cost : QuotaRate → ℤ → ℤ → Option ℤ → TokenUsage → ℤ
chat_quota_cost rate input_price output_price cached_input_price usage =
    let cached_rate = max_ℤ (unwrap_or input_price cached_input_price) (pos 0) in
    let micro = micro_cost input_price output_price cached_rate usage in
    let per_unit = tokens_per_price_unit in
    let rounded = quot (add_i128 (add_i128 micro (pos per_unit)) (negsuc 0)) per_unit in
    micro_quota_for_micro_usd rate (clamp rounded (pos 0) max_i64)
