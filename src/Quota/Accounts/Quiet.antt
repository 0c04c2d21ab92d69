-- ===== src/Quota/Accounts/Quiet.antt =====
-- The accounts where no other request runs and no statement fails: exact results, and a ledger that
-- accounts for every balance.
use yunova.Base.{
  ℕ, suc, ◌≡◌, refl, sym, Option, none, some, List, [], ◌∷◌, String, arith, inl, inr, false,
  Bool-cases, Option-cases, if◌then◌else◌, ◌==◌,
}
use yunova.Base.Int.{ℤ, pos, max_ℤ, leb_ℤ, ltb_ℤ, ◌+ℤ◌, ◌-ℤ◌, ◌≤ℤ◌, int_laws}
use yunova.Schema.{Tables, Account, LedgerMeta, LedgerRow}
use yunova.Db.{Conn, quiet, running}
use yunova.Quota.LedgerMeta
use yunova.Quota.Settings.{get_setting, get_setting_i64}
use yunova.Quota.Pricing.{default_signup_grant}
use yunova.Quota.Accounts.{
  ok, insufficient, set_account, add_row, insert_account, insert_ledger, open_account,
  ensure_account, deduct_if_covered, deduct, try_deduct, spend,
}

-- The sum of a user's rows.
abbrev pub ledger_total : ℕ → List LedgerRow → ℤ
ledger_total v [] = pos 0
ledger_total v (r ∷ rs) = if v == r.user_id then r.delta +ℤ ledger_total v rs else ledger_total v rs

abbrev pub balance_or_zero : Option Account → ℤ
balance_or_zero none = pos 0
balance_or_zero (some a) = a.balance

-- Every balance is the sum of its rows, and who has no account has none.
abbrev pub Reconciles : Tables → Type 0
Reconciles t = (v : ℕ) → ledger_total v t.ledger ≡ balance_or_zero (t.balances v)

-- A write of the account and its row.
pub move-Reconciles :
    (uid : ℕ) (d : ℤ) (reason : String) (meta : LedgerMeta) (a : Account) (t : Tables)
    → a.balance ≡ d +ℤ balance_or_zero (t.balances uid)
    → Reconciles t
    → Reconciles (add_row uid d reason meta (set_account uid a t))
unfolding add_row set_account
move-Reconciles uid d reason meta a t e h v = ground (arith, h v)

pub zero_row-Reconciles :
    (uid : ℕ) (reason : String) (meta : LedgerMeta) (t : Tables)
    → Reconciles t
    → Reconciles (add_row uid (pos 0) reason meta t)
unfolding add_row
zero_row-Reconciles uid reason meta t h v = ground (arith, h v, zero_add (ledger_total v t.ledger))
  where
    zero_add : (a : ℤ) → pos 0 +ℤ a ≡ a
    zero_add a = omega int_laws

pub same-Reconciles :
    (uid : ℕ) (a : Account) (t : Tables)
    → a.balance ≡ balance_or_zero (t.balances uid)
    → Reconciles t
    → Reconciles (set_account uid a t)
unfolding set_account
same-Reconciles uid a t e h v = ground (arith, h v)

-- On an account that is there, a positive cost is taken and recorded exactly where the balance covers
-- it; otherwise the answer is the balance and nothing changes. No statement fails and no other request runs.
pub try_deduct_known :
    (uid : ℕ) (cost : ℤ) (reason : String) (meta : LedgerMeta) (a : Account) (c : Conn)
    → c.tables.balances uid ≡ some a
    → pos 1 ≤ℤ cost
    → let r = try_deduct uid cost reason meta quiet c in
      let covered = leb_ℤ cost a.balance in
      (r.0 ≡ some (if covered then ok (a.balance -ℤ cost) else insufficient a.balance))
      × (r.1.tables ≡ (
          if covered
          then add_row uid (pos 0 -ℤ cost) reason meta (set_account uid (spend cost a) c.tables)
          else c.tables))
unfolding try_deduct ensure_account deduct insert_ledger deduct_if_covered running spend set_account
    add_row
try_deduct_known uid cost reason meta a c known p = ground arith

-- The account is there, its balance is the answer, and the ledger accounts for every balance.
pub record IsOpened (uid : ℕ) (r : Option ℤ × Conn) : Type 0 where
  pub account : Account
  pub value : r.0 ≡ some account.balance
  pub found : r.1.tables.balances uid ≡ some account
  pub sums : Reconciles r.1.tables

setting_read :
    (key : String) (d : ℤ) (c : Conn)
    → (g : ℤ) × (get_setting_i64 key d quiet c
        ≡ (some g, record { tables = c.tables; tick = suc c.tick }))
unfolding get_setting_i64 get_setting running
setting_read key d c = (_, refl)

abbrev fresh : ℤ → Account
fresh b = record { balance = b; lifetime_used = pos 0 }

-- The tables after a new account is opened.
opened : ℕ → ℤ → Tables → Tables
opened uid g t =
    let t' = set_account uid (fresh (max_ℤ g (pos 0))) t in
    if ltb_ℤ (pos 0) (max_ℤ g (pos 0))
    then add_row uid (max_ℤ g (pos 0)) "signup_grant" LedgerMeta.grant t'
    else t'

open_account-tables :
    (uid : ℕ) (c : Conn)
    → c.tables.balances uid ≡ none
    → (g : ℤ) × ((open_account uid quiet c).0 ≡ some (max_ℤ g (pos 0)))
      × ((open_account uid quiet c).1.tables ≡ opened uid g c.tables)
unfolding open_account insert_account insert_ledger running opened set_account add_row
open_account-tables uid c new =
    let (g, e) = setting_read "signup_grant" default_signup_grant c in
    (g, ground (arith, e), ground (arith, e))

add_zero : (a : ℤ) → a +ℤ pos 0 ≡ a
add_zero a = omega int_laws

opened-Reconciles :
    (uid : ℕ) (g : ℤ) (t : Tables)
    → t.balances uid ≡ none
    → Reconciles t
    → Reconciles (opened uid g t)
unfolding opened
opened-Reconciles uid g t new h =
    let b = max_ℤ g (pos 0) in
    elim (Bool-cases (ltb_ℤ (pos 0) b)) [
      | inl p ↦ rw p (
          move-Reconciles uid b "signup_grant" LedgerMeta.grant (fresh b) t
            (rw new (sym (add_zero b))) h)
      | inr z ↦ rw z (same-Reconciles uid (fresh b) t (rw new (not_above b g z)) h)
    ]
  where
    not_above : (b g : ℤ) → ltb_ℤ (pos 0) (max_ℤ g (pos 0)) ≡ false → max_ℤ g (pos 0) ≡ pos 0
    not_above b g z = ground arith

opened_found :
    (uid : ℕ) (g : ℤ) (t : Tables) → (opened uid g t).balances uid ≡ some (fresh (max_ℤ g (pos 0)))
unfolding opened set_account add_row
opened_found uid g t = ground arith

pub ensure_account-IsOpened :
    (uid : ℕ) (c : Conn) → Reconciles c.tables → IsOpened uid (ensure_account uid quiet c)
unfolding ensure_account running
ensure_account-IsOpened uid c h = elim (Option-cases (c.tables.balances uid)) [
  | inr (a, old) ↦ record {
    account = a;
    value = ground arith;
    found = ground arith;
    sums = rw old h;
  }
  | inl new ↦
      let (g, v, t) =
        open_account-tables uid (record { tables = c.tables; tick = suc c.tick }) new in
      record {
        account = fresh (max_ℤ g (pos 0));
        value = rw new v;
        found = rw (new, t) (opened_found uid g c.tables);
        sums = rw (new, t) (opened-Reconciles uid g c.tables new h);
      }
]
