-- ===== src/Channels/Billing.antt =====
-- The charges of src/channels.rs and src/images.rs: who may use a model on the platform's account,
-- what a call costs, and what a failed call gives back.
pub mod Images
use yunova.Base.{ℕ, Bool, ◌&&◌, ◌||◌, not, Option, none, some, List, String, ◌++◌, if◌then◌else◌}
use text.Mathlib.Text.{◌==◌ as str_eq}
use yunova.Base.Int.{ℤ, pos, ltb_ℤ, leb_ℤ, max_ℤ}
use yunova.Schema.{TokenUsage, ModelPrice}
use yunova.Db.{Action, pure, attempt, ◌>>=◌, ◌>>◌}
use yunova.Quota.LedgerMeta
use yunova.Quota.Pricing.{micro_quota_for_micro_usd, chat_quota_cost, is_empty}
use yunova.Quota.Rate
use yunova.Quota.Accounts.{
  Outcome, ok, insufficient, has_spendable_balance, settle, try_deduct, grant,
}
use yunova.Channels.Pricing.{get_price}

-- The enabled price of this flavor, of what `get_price(…).await.ok().flatten()` gives.
unfoldable pub open_price : String → Option (Option ModelPrice) → Option ModelPrice
open_price flavor none = none
open_price flavor (some none) = none
open_price flavor (some (some p)) =
    if not p.enabled || not (str_eq p.kind flavor) then none else some p

unfoldable pub enabled_price : String → String → Action (Option ModelPrice)
enabled_price model flavor = do p ← attempt (get_price model); pure (open_price flavor p)

-- `Result<T, DeductError>`
pub data Charge (T : Type 0) : Type 0 where
  charged : T → Charge T
  not_whitelisted : Charge T
  too_poor : ℤ → ℤ → Charge T

unfoldable pub admitted : ModelPrice → Outcome → Charge ModelPrice
admitted p (ok b) = charged p
admitted p (insufficient b) = too_poor b (pos 0)

-- A free model needs no balance.
unfoldable pub authorize_price : ℕ → Option ModelPrice → Action (Charge ModelPrice)
authorize_price uid none = pure not_whitelisted
authorize_price uid (some p) =
    if leb_ℤ p.input_price (pos 0) && leb_ℤ p.output_price (pos 0)
    then pure (charged p)
    else do b ← has_spendable_balance uid; pure (admitted p b)

unfoldable pub authorize_chat : ℕ → String → Action (Charge ModelPrice)
authorize_chat uid model = do p ← enabled_price model "chat"; authorize_price uid p

unfoldable pub settle_price :
    ℕ → String → String → TokenUsage → String → Option ModelPrice → Action ℤ
settle_price uid model protocol usage reason none = pure (pos 0)
settle_price uid model protocol usage reason (some p) = do
  rate ← Rate.load
  let cost = chat_quota_cost rate p.input_price p.output_price p.cached_input_price usage
  settle uid cost reason (LedgerMeta.chat_usage protocol model usage)
  pure cost

-- It returns what it meant to charge, whatever `settle` did.
unfoldable pub settle_chat : ℕ → String → String → TokenUsage → String → Action ℤ
settle_chat uid model protocol usage reason =
    if is_empty usage
    then pure (pos 0)
    else do p ← enabled_price model "chat"; settle_price uid model protocol usage reason p

unfoldable pub outcome_of : ℤ → Outcome → Charge (ℤ × ℤ)
outcome_of cost (ok b) = charged (b, cost)
outcome_of cost (insufficient b) = too_poor b cost

unfoldable pub deduct_price :
    ℕ → String → String → String → Option ModelPrice → Action (Charge (ℤ × ℤ))
deduct_price uid model protocol reason none = pure not_whitelisted
deduct_price uid model protocol reason (some p) = do
  rate ← Rate.load
  let cost = micro_quota_for_micro_usd rate (max_ℤ p.per_call_price (pos 0))
  b ← try_deduct uid cost reason (LedgerMeta.image protocol model)
  pure (outcome_of cost b)

unfoldable pub try_deduct_per_call : ℕ → String → String → String → String → Action (Charge (ℤ × ℤ))
try_deduct_per_call uid model flavor protocol reason = do
  p ← enabled_price model flavor
  deduct_price uid model protocol reason p

unfoldable pub call_quota : Option ModelPrice → Action (Option ℤ)
call_quota none = pure none
call_quota (some p) = do
  rate ← Rate.load
  pure (some (micro_quota_for_micro_usd rate (max_ℤ p.per_call_price (pos 0))))

unfoldable pub per_call_quota : String → String → Action (Option ℤ)
per_call_quota model flavor = do p ← enabled_price model flavor; call_quota p

-- `deduct_image_quota` of src/images.rs, whose refusals are responses. `reason` is `image_{protocol}`.
unfoldable pub deduct_image_quota : ℕ → String → String → String → Action (Charge (ℤ × ℤ))
deduct_image_quota uid protocol model reason = try_deduct_per_call uid model "image" protocol reason

unfoldable pub or_nothing : Option ℤ → ℤ
or_nothing none = pos 0
or_nothing (some cost) = cost

-- `refund_image_quota`; `formatted` is its reason in the ledger. The price is read again.
unfoldable pub refund_image_quota : ℕ → String → String → Action (Option ℤ)
refund_image_quota uid model formatted = do
  quota ← per_call_quota model "image"
  if ltb_ℤ (pos 0) (or_nothing quota)
      then attempt (grant uid (or_nothing quota) formatted (LedgerMeta.refund_image model))
      else pure none
