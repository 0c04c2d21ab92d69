-- ===== src/Channels/Billing/Images.antt =====
-- What an image call costs and gives back, in src/images.rs over src/channels.rs.
use yunova.Base.{
  ℕ, subst, suc, Bool, false, ◌≡◌, refl, sym, ap, ◌∙◌, Option, none, some, String, arith, inl, inr,
  true, if◌then◌else◌,
}
use yunova.Base.Int.{ℤ, pos, clamp, max_i64, max_ℤ, ltb_ℤ, ◌≤ℤ◌, ◌-ℤ◌, ◌+ℤ◌}
use yunova.Schema.{Account, ModelPrice}
use yunova.Db.{Action, pure, attempt, ◌>>=◌, Conn, quiet, running}
use yunova.Db.Runs.{bind_at}
use yunova.Quota.LedgerMeta
use yunova.Quota.Settings.{get_setting, get_setting_i64}
use yunova.Quota.Pricing.{QuotaRate, micro_quota_for_micro_usd}
use yunova.Quota.Rate
use yunova.Quota.Accounts.{ok, try_deduct, grant, spend, credit}
use yunova.Quota.Accounts.Covered.{nonneg_cases, covered-Taken, grant_known, credit_zero}
use yunova.Channels.Pricing.{get_price}
use yunova.Channels.Billing.{
  Charge, charged, enabled_price, outcome_of, deduct_price, try_deduct_per_call, call_quota,
  per_call_quota, deduct_image_quota, or_nothing, refund_image_quota,
}

abbrev later : Conn → Conn
later c = record { tables = c.tables; tick = suc c.tick }

load_quiet : (c : Conn) → (r : QuotaRate) × (Rate.load quiet c ≡ (some r, later (later c)))
unfolding Rate.load get_setting_i64 get_setting running
load_quiet c = (_, refl)

enabled_price-quiet :
    (model flavor : String) (c : Conn)
    → (p : Option ModelPrice) × (enabled_price model flavor quiet c ≡ (some p, later c))
unfolding enabled_price get_price running
enabled_price-quiet model flavor c = (_, refl)

clamp_nonneg : (q : ℤ) → pos 0 ≤ℤ clamp q (pos 0) max_i64
unfolding clamp
clamp_nonneg q = ground arith

if_nonneg : (b : Bool) (q : ℤ) → pos 0 ≤ℤ q → pos 0 ≤ℤ (if b then pos 0 else q)
if_nonneg true q h = omega arith
if_nonneg false q h = h

quota_nonneg : (rate : QuotaRate) (m : ℤ) → pos 0 ≤ℤ micro_quota_for_micro_usd rate m
unfolding micro_quota_for_micro_usd
quota_nonneg rate m = if_nonneg _ _ (clamp_nonneg _)

abbrev cost_of : QuotaRate → ModelPrice → ℤ
cost_of rate p = micro_quota_for_micro_usd rate (max_ℤ p.per_call_price (pos 0))

-- What is charged for a call is what `per_call_quota` reports, in the same state.
some_inj : {A : Type 0} {x y : A} → some x ≡ some y → x ≡ y
some_inj e = cc

no_quota : (cost : ℤ) (c : Conn) → (call_quota none quiet c).0 ≡ some (some cost) → ⊥
unfolding call_quota running
no_quota cost c e = ground arith

call_quota-cost_of :
    (p : Option ModelPrice) (cost : ℤ) (c : Conn)
    → (call_quota p quiet c).0 ≡ some (some cost)
    → (q : ModelPrice) × (p ≡ some q) × (cost_of (load_quiet c).0 q ≡ cost)
unfolding call_quota pure
call_quota-cost_of none cost c e = absurd (no_quota cost c e)
call_quota-cost_of (some q) cost c e =
    let (rate, l) = load_quiet c in
    let run = bind_at Rate.load (λ r. pure (some (cost_of r q))) quiet c (later (later c)) rate l in
    (q, refl, some_inj (some_inj (ap (λ (r : Option (Option ℤ) × Conn). r.0) (sym run) ∙ e)))

open_at :
    (model : String) (cost : ℤ) (c : Conn)
    → (per_call_quota model "image" quiet c).0 ≡ some (some cost)
    → (p : ModelPrice) × (rate : QuotaRate) × (enabled_price model "image" quiet c
        ≡ (some (some p), later c))
      × (Rate.load quiet (later c) ≡ (some rate, later (later (later c))))
      × (cost_of rate p ≡ cost)
unfolding per_call_quota call_quota
open_at model cost c priced =
    let (p, opened) = enabled_price-quiet model "image" c in
    let run = bind_at (enabled_price model "image") call_quota quiet c (later c) p opened in
    let (q, e, k) =
      call_quota-cost_of p cost (later c)
        (ap (λ (r : Option (Option ℤ) × Conn). r.0) (sym run) ∙ priced) in
    let (rate, l) = load_quiet (later c) in (q, rate, opened ∙ ap (λ r. (some r, later c)) e, l, k)

deduct_quiet :
    (uid : ℕ) (protocol model reason : String) (cost : ℤ) (a : Account) (c : Conn)
    → c.tables.balances uid ≡ some a
    → (per_call_quota model "image" quiet c).0 ≡ some (some cost)
    → cost ≤ℤ a.balance
    → let r = deduct_image_quota uid protocol model reason quiet c in
      (r.0 ≡ some (charged (a.balance -ℤ cost, cost)))
      × (r.1.tables.balances uid ≡ some (spend cost a))
unfolding deduct_image_quota try_deduct_per_call deduct_price outcome_of pure
deduct_quiet uid protocol model reason cost a c known priced h =
    let (p, rate, opened, loaded, priced_at) = open_at model cost c priced in
    let c1 = later c in
    let c3 = later (later c1) in
    let meta = LedgerMeta.image protocol model in
    let nonneg =
      subst (λ q. pos 0 ≤ℤ q) priced_at (quota_nonneg rate (max_ℤ p.per_call_price (pos 0))) in
    let (value, taken) = covered-Taken uid cost reason meta a c3 known nonneg h in
    let c4 = (try_deduct uid cost reason meta quiet c3).1 in
    let charge = λ (q : ℤ). try_deduct uid q reason meta >>= (λ b. pure (outcome_of q b)) in
    let run =
      bind_at (enabled_price model "image") (deduct_price uid model protocol reason) quiet c c1
        (some p) opened
      ∙ bind_at Rate.load (λ r. charge (cost_of r p)) quiet c1 c3 rate loaded
      ∙ ap (λ q. charge q quiet c3) priced_at
      ∙ bind_at (try_deduct uid cost reason meta) (λ b. pure (outcome_of cost b)) quiet c3 c4
          (ok (a.balance -ℤ cost)) (ap (λ v. (v, c4)) value) in
    (
      ap (λ (r : Option (Charge (ℤ × ℤ)) × Conn). r.0) run,
      ap (λ (r : Option (Charge (ℤ × ℤ)) × Conn). r.1.tables.balances uid) run ∙ taken,
    )

per_call_quota_at :
    (model : String) (cost : ℤ) (c : Conn)
    → (per_call_quota model "image" quiet c).0 ≡ some (some cost)
    → (per_call_quota model "image" quiet c ≡ (some (some cost), later (later (later c))))
      × (pos 0 ≤ℤ cost)
unfolding per_call_quota call_quota pure
per_call_quota_at model cost c priced =
    let (p, rate, opened, loaded, priced_at) = open_at model cost c priced in
    let c1 = later c in
    let c3 = later (later c1) in
    let nonneg =
      subst (λ q. pos 0 ≤ℤ q) priced_at (quota_nonneg rate (max_ℤ p.per_call_price (pos 0))) in
    (
      bind_at (enabled_price model "image") call_quota quiet c c1 (some p) opened
          ∙ bind_at Rate.load (λ r. pure (some (cost_of r p))) quiet c1 c3 rate loaded
          ∙ ap (λ q. (some (some q), c3)) priced_at,
      nonneg,
    )

given_back : ℕ → String → String → Option ℤ → Action (Option ℤ)
given_back uid model formatted quota =
    if ltb_ℤ (pos 0) (or_nothing quota)
    then attempt (grant uid (or_nothing quota) formatted (LedgerMeta.refund_image model))
    else pure none

given :
    (uid : ℕ) (model formatted : String) (back : ℤ) (a : Account) (c : Conn)
    → c.tables.balances uid ≡ some a
    → pos 0 ≤ℤ back
    → (given_back uid model formatted (some back) quiet c).1.tables.balances uid
      ≡ some (credit back a)
unfolding given_back or_nothing attempt pure
given uid model formatted back a c known nonneg = elim (nonneg_cases back nonneg) [
  | inl z ↦ rw (z, credit_zero a) known
  | inr q ↦
      let e : ltb_ℤ (pos 0) back ≡ true = ground arith in
      rw e (grant_known uid back formatted (LedgerMeta.refund_image model) a c known)
]

refund_quiet :
    (uid : ℕ) (model formatted : String) (back : ℤ) (a : Account) (c : Conn)
    → c.tables.balances uid ≡ some a
    → (per_call_quota model "image" quiet c).0 ≡ some (some back)
    → (refund_image_quota uid model formatted quiet c).1.tables.balances uid ≡ some (credit back a)
unfolding refund_image_quota given_back
refund_quiet uid model formatted back a c known priced =
    let (at, nonneg) = per_call_quota_at model back c priced in
    ap (λ (r : Option (Option ℤ) × Conn). r.1.tables.balances uid)
      (bind_at (per_call_quota model "image") (given_back uid model formatted) quiet c
        (later (later (later c))) (some back) at)
    ∙ given uid model formatted back a (later (later (later c))) known nonneg

-- A call whose cost the balance covers is charged what `per_call_quota` reports then, and its refund
-- gives back what `per_call_quota` reports at the time of the refund, whatever was changed in between
-- but the account: the balance ends at its old value less the one and plus the other. No statement fails.
pub deduct_image_quota-refund_image_quota :
    (uid : ℕ) (protocol model reason formatted : String) (cost back : ℤ) (a : Account) (c d : Conn)
    → c.tables.balances uid ≡ some a
    → (per_call_quota model "image" quiet c).0 ≡ some (some cost)
    → cost ≤ℤ a.balance
    → d.tables.balances uid
      ≡ (deduct_image_quota uid protocol model reason quiet c).1.tables.balances uid
    → (per_call_quota model "image" quiet d).0 ≡ some (some back)
    → ((deduct_image_quota uid protocol model reason quiet c).0
        ≡ some (charged (a.balance -ℤ cost, cost)))
      × ((refund_image_quota uid model formatted quiet d).1.tables.balances uid
          ≡ some (record {
            balance = (a.balance -ℤ cost) +ℤ back;
            lifetime_used = a.lifetime_used +ℤ cost;
          }))
unfolding spend credit
deduct_image_quota-refund_image_quota uid protocol model reason formatted cost back a c d known
      priced h same again =
    let (value, taken) = deduct_quiet uid protocol model reason cost a c known priced h in
    (value, refund_quiet uid model formatted back (spend cost a) d (same ∙ taken) again)
