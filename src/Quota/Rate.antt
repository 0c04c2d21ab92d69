-- ===== src/Quota/Rate.antt =====
-- `QuotaRate::load` of src/quota.rs: the two settings that the pricing engine reads for each charge.
use yunova.Base.Int.{pos, max_ℤ}
use yunova.Db.{Action, pure, ◌>>=◌}
use yunova.Quota.Settings.{get_setting_i64}
use yunova.Quota.Pricing.{QuotaRate, default_usd_to_cny_micro}

unfoldable pub load : Action QuotaRate
load = do
  cny ← get_setting_i64 "usd_to_cny_rate_micro" default_usd_to_cny_micro
  percent ← get_setting_i64 "price_multiplier_percent" (pos 100)
  pure (record { usd_to_cny_micro = max_ℤ cny (pos 0); multiplier_percent = max_ℤ percent (pos 0) })
