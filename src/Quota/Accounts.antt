-- ===== src/Quota/Accounts.antt =====
-- Balances and the ledger of src/quota.rs.
pub mod Safety
pub mod Writes
pub mod Covered
pub mod Quiet
pub mod Reconcile
use yunova.Base.{ℕ, Bool, true, false, Option, none, some, List, ◌∷◌, String, ◌==◌, if◌then◌else◌}
use yunova.Base.Int.{ℤ, pos, ltb_ℤ, leb_ℤ, eqb_ℤ, max_ℤ, ◌+ℤ◌, ◌-ℤ◌, sub_i64}
use yunova.Schema.{Tables, Account, LedgerMeta}
use yunova.Db.{Action, pure, fail, statement, attempt, select, fetch_one, ◌>>=◌, ◌>>◌}
use yunova.Quota.LedgerMeta
use yunova.Quota.Settings.{get_setting_i64}
use yunova.Quota.Pricing.{default_signup_grant}

-- `Result<i64, i64>` of the deductions.
pub data Outcome : Type 0 where
  ok : ℤ → Outcome
  insufficient : ℤ → Outcome

unfoldable pub set_account : ℕ → Account → Tables → Tables
set_account uid a t = record t { balances = λ u. if u == uid then some a else t.balances u }

unfoldable pub add_row : ℕ → ℤ → String → LedgerMeta → Tables → Tables
add_row uid delta reason meta t = record t {
  ledger = record { user_id = uid; delta = delta; reason = reason; meta = meta } ∷ t.ledger;
}

-- `INSERT INTO balance_ledger`; an error is ignored.
unfoldable pub insert_ledger : ℕ → ℤ → String → LedgerMeta → Action (Option (Unit {0}))
insert_ledger uid delta reason meta =
    attempt (statement (λ t. some (tt, add_row uid delta reason meta t)))

-- `SELECT balance FROM user_balances WHERE user_id = ?`
abbrev pub balance_of : ℕ → Tables → Option ℤ
balance_of uid t = elim (t.balances uid) [ none ↦ none | some a ↦ some a.balance ]

-- `INSERT INTO user_balances`, where `user_id` is unique.
unfoldable pub insert_account : ℕ → ℤ → Tables → Option (Unit {0} × Tables)
insert_account uid initial t = elim (t.balances uid) [
  | some a ↦ none
  | none ↦ some (tt, set_account uid (record { balance = initial; lifetime_used = pos 0 }) t)
]

-- The rest of `ensure_account`, where no row was found.
unfoldable pub open_account : ℕ → Action ℤ
open_account uid = do
  grant ← get_setting_i64 "signup_grant" default_signup_grant
  let initial = max_ℤ grant (pos 0)
  attempt (statement (insert_account uid initial))
  if ltb_ℤ (pos 0) initial
      then insert_ledger uid initial "signup_grant" LedgerMeta.grant
      else pure none
  fetch_one (balance_of uid)

-- The balance, after the account is opened if it is missing.
unfoldable pub ensure_account : ℕ → Action ℤ
unfolding open_account
ensure_account uid = do
  existing ← select (balance_of uid)
  elim existing [ some b ↦ pure b | none ↦ open_account uid ]

or_zero : Option ℤ → ℤ
or_zero none = pos 0
or_zero (some b) = b

-- `get_balance`: an error reads as 0.
unfoldable pub get_balance : ℕ → Action ℤ
unfolding or_zero
get_balance uid = do b ← attempt (ensure_account uid); pure (or_zero b)

unfoldable pub has_spendable_balance : ℕ → Action Outcome
unfolding get_balance
has_spendable_balance uid = do
  b ← get_balance uid
  pure (if ltb_ℤ (pos 0) b then ok b else insufficient b)

unfoldable pub spend : ℤ → Account → Account
spend cost a = record { balance = a.balance -ℤ cost; lifetime_used = a.lifetime_used +ℤ cost }

-- The guarded `UPDATE` of `try_deduct`, with the number of rows that it changed.
unfoldable pub deduct_if_covered : ℕ → ℤ → Tables → Option (ℕ × Tables)
unfolding spend
deduct_if_covered uid cost t = elim (t.balances uid) [
  | none ↦ some (0, t)
  | some a ↦
      if leb_ℤ cost a.balance then some (1, set_account uid (spend cost a) t) else some (0, t)
]

affected : Option ℕ → ℕ
affected none = 0
affected (some n) = n

found : Option (Option ℤ) → ℤ
found none = pos 0
found (some none) = pos 0
found (some (some b)) = b

-- `try_deduct` once the account is there.
unfoldable pub deduct : ℕ → ℤ → String → LedgerMeta → Action Outcome
unfolding affected found or_zero
deduct uid cost reason meta = do
  rows ← attempt (statement (deduct_if_covered uid cost))
  if affected rows == 0
      then (do b ← attempt (select (balance_of uid)); pure (insufficient (found b)))
      else do
        insert_ledger uid (pos 0 -ℤ cost) reason meta
        b ← attempt (fetch_one (balance_of uid))
        pure (ok (or_zero b))

deduct_or_refuse : ℕ → ℤ → String → LedgerMeta → Option ℤ → Action Outcome
deduct_or_refuse uid cost reason meta none = pure (insufficient (pos 0))
deduct_or_refuse uid cost reason meta (some b) = deduct uid cost reason meta

-- A cost of 0 leaves a row in the ledger, a negative cost does not.
unfoldable pub try_deduct : ℕ → ℤ → String → LedgerMeta → Action Outcome
unfolding or_zero deduct_or_refuse
try_deduct uid cost reason meta =
    if leb_ℤ cost (pos 0)
    then (do
      b ← attempt (ensure_account uid)
      if eqb_ℤ cost (pos 0) then insert_ledger uid (pos 0) reason meta else pure none
      pure (ok (or_zero b)))
    else do b ← attempt (ensure_account uid); deduct_or_refuse uid cost reason meta b

unfoldable pub update_account : (Account → Account) → ℕ → Tables → Option (Unit {0} × Tables)
update_account f uid t = elim (t.balances uid) [
  | none ↦ some (tt, t)
  | some a ↦ some (tt, set_account uid (f a) t)
]

-- `settle` once the account is there.
unfoldable pub charge_account : ℕ → ℤ → String → LedgerMeta → Action ℤ
unfolding update_account spend
charge_account uid cost reason meta =
    if leb_ℤ cost (pos 0) then (do insert_ledger uid (pos 0) reason meta; get_balance uid) else do
      done ← attempt (statement (update_account (spend cost) uid))
      elim done [
        | none ↦ get_balance uid
        | some _ ↦ do insert_ledger uid (pos 0 -ℤ cost) reason meta; get_balance uid
      ]

-- It never refuses: what was delivered is charged.
unfoldable pub settle : ℕ → ℤ → String → LedgerMeta → Action ℤ
settle uid cost reason meta = do
  b ← attempt (ensure_account uid)
  elim b [ none ↦ pure (pos 0) | some _ ↦ charge_account uid cost reason meta ]

unfoldable pub credit : ℤ → Account → Account
credit delta a = record a { balance = a.balance +ℤ delta }

unfoldable pub grant : ℕ → ℤ → String → LedgerMeta → Action ℤ
unfolding update_account credit
grant uid delta reason meta = do
  ensure_account uid
  statement (update_account (credit delta) uid)
  insert_ledger uid delta reason meta
  fetch_one (balance_of uid)

unfoldable pub overwrite : ℤ → Account → Account
overwrite b a = record a { balance = b }

unfoldable pub set_balance : ℕ → ℤ → String → LedgerMeta → Action ℤ
unfolding update_account overwrite
set_balance uid new_balance reason meta = do
  before ← ensure_account uid
  statement (update_account (overwrite new_balance) uid)
  let delta = sub_i64 new_balance before
  if eqb_ℤ delta (pos 0) then pure none else insert_ledger uid delta reason meta
  pure new_balance
