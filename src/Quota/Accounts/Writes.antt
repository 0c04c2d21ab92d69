-- ===== src/Quota/Accounts/Writes.antt =====
-- What an operation on an account keeps, whatever other requests do in between and whichever
-- statements fail: it is enough that its single writes keep it.
use yunova.Base.{ℕ, ◌≡◌, Bool, none, some, String, arith, inl, inr, Bool-cases, Option-cases}
use yunova.Base.Int.{ℤ, pos, leb_ℤ, max_ℤ, ◌≤ℤ◌}
use yunova.Schema.{Tables, Account, LedgerMeta}
use yunova.Db.{Env}
use yunova.Db.Rules.{
  IsStable, Keeps, Lands, pure-Keeps, attempt-Keeps, bind-Keeps, then-Keeps, if-Keeps,
  statement-Keeps, select-Keeps, fetch_one-Keeps,
}
use yunova.Quota.Settings.{get_setting, get_setting_i64, get_setting_bool}
use yunova.Quota.Accounts.{
  set_account, add_row, insert_ledger, insert_account, open_account, ensure_account, get_balance,
  deduct_if_covered, deduct, try_deduct, charge_account, settle, grant, set_balance, update_account,
  spend, credit, overwrite,
}

pub get_setting-Keeps :
    {P : Tables → Type 0} {e : Env} (key : String) → IsStable P e → Keeps P e (get_setting key)
unfolding get_setting
get_setting-Keeps key s = bind-Keeps (attempt-Keeps (select-Keeps _ s)) (λ r. pure-Keeps _)

pub get_setting_i64-Keeps :
    {P : Tables → Type 0} {e : Env} (key : String) (default : ℤ)
    → IsStable P e
    → Keeps P e (get_setting_i64 key default)
unfolding get_setting_i64
get_setting_i64-Keeps key default s = bind-Keeps (get_setting-Keeps key s) (λ v. pure-Keeps _)

pub get_setting_bool-Keeps :
    {P : Tables → Type 0} {e : Env} (key : String) (default : Bool)
    → IsStable P e
    → Keeps P e (get_setting_bool key default)
unfolding get_setting_bool
get_setting_bool-Keeps key default s = bind-Keeps (get_setting-Keeps key s) (λ v. pure-Keeps _)

-- Rows of the ledger and new accounts of the user keep `P`.
pub record Opens (P : Tables → Type 0) (uid : ℕ) : Type 0 where
  pub row :
      (delta : ℤ) (reason : String) (meta : LedgerMeta) (t : Tables)
      → P t
      → P (add_row uid delta reason meta t)
  pub account :
      (b : ℤ) (t : Tables)
      → pos 0 ≤ℤ b
      → t.balances uid ≡ none
      → P t
      → P (set_account uid (record { balance = b; lifetime_used = pos 0 }) t)

open-Lands :
    {P : Tables → Type 0} (uid : ℕ) (o : Opens P uid) (b : ℤ) (t : Tables)
    → pos 0 ≤ℤ b
    → P t
    → Lands P (insert_account uid b t)
unfolding insert_account
open-Lands uid o b t n h = elim (Option-cases (t.balances uid)) [
  | inl new ↦ rw (new, Lands) (o.account b t n new h)
  | inr (a, old) ↦ rw (old, Lands) tt
]

deduct-Lands :
    {P : Tables → Type 0} (uid : ℕ) (cost : ℤ)
    → ((a : Account) (t : Tables)
        → t.balances uid ≡ some a
        → cost ≤ℤ a.balance
        → P t
        → P (set_account uid (spend cost a) t))
    → (t : Tables) → P t
    → Lands P (deduct_if_covered uid cost t)
unfolding deduct_if_covered
deduct-Lands uid cost covered t h = elim (Option-cases (t.balances uid)) [
  | inl new ↦ rw (new, Lands) h
  | inr (a, old) ↦ elim (Bool-cases (leb_ℤ cost a.balance)) [
    | inl le ↦ rw (old, le, Lands) (covered a t old (ground arith) h)
    | inr gt ↦ rw (old, gt, Lands) h
  ]
]

-- One unguarded change of the user's account keeps `P`.
abbrev pub Updates : (Tables → Type 0) → ℕ → (Account → Account) → Type 0
Updates P uid f =
    (a : Account) (t : Tables) → t.balances uid ≡ some a → P t → P (set_account uid (f a) t)

update-Lands :
    {P : Tables → Type 0} (f : Account → Account) (uid : ℕ)
    → Updates P uid f
    → (t : Tables) → P t
    → Lands P (update_account f uid t)
unfolding update_account
update-Lands f uid u t h = elim (Option-cases (t.balances uid)) [
  | inl new ↦ rw (new, Lands) h
  | inr (a, old) ↦ rw (old, Lands) (u a t old h)
]

module _ {P : Tables → Type 0} {e : Env} (s : IsStable P e) (uid : ℕ) (o : Opens P uid) where
  pub insert_ledger-Keeps :
      (delta : ℤ) (reason : String) (meta : LedgerMeta)
      → Keeps P e (insert_ledger uid delta reason meta)
  unfolding insert_ledger
  insert_ledger-Keeps delta reason meta =
      attempt-Keeps (statement-Keeps _ s (λ t h. o.row delta reason meta t h))

  open_account-Keeps : Keeps P e (open_account uid)
  unfolding open_account
  open_account-Keeps = bind-Keeps (get_setting_i64-Keeps _ _ s) λ g.
      then-Keeps
        (attempt-Keeps
          (statement-Keeps _ s (λ t h. open-Lands uid o (max_ℤ g (pos 0)) t (ground arith) h)))
        (then-Keeps (if-Keeps _ (insert_ledger-Keeps _ _ _) (pure-Keeps none))
          (fetch_one-Keeps _ s))

  pub ensure_account-Keeps : Keeps P e (ensure_account uid)
  unfolding ensure_account
  ensure_account-Keeps =
      bind-Keeps (select-Keeps _ s) (elim [ none ↦ open_account-Keeps | some b ↦ pure-Keeps b ])

  pub get_balance-Keeps : Keeps P e (get_balance uid)
  unfolding get_balance
  get_balance-Keeps = bind-Keeps (attempt-Keeps ensure_account-Keeps) (λ b. pure-Keeps _)

  -- The guarded write of `try_deduct` keeps `P`.
  module _ (cost : ℤ)
      (covered : (a : Account) (t : Tables)
        → t.balances uid ≡ some a
        → cost ≤ℤ a.balance
        → P t
        → P (set_account uid (spend cost a) t)) where
    deduct-Keeps : (reason : String) (meta : LedgerMeta) → Keeps P e (deduct uid cost reason meta)
    unfolding deduct
    deduct-Keeps reason meta =
        bind-Keeps (attempt-Keeps (statement-Keeps _ s (deduct-Lands uid cost covered))) λ rows.
          if-Keeps _ (bind-Keeps (attempt-Keeps (select-Keeps _ s)) (λ b. pure-Keeps _)) (
            then-Keeps (insert_ledger-Keeps _ _ _)
              (bind-Keeps (attempt-Keeps (fetch_one-Keeps _ s)) (λ b. pure-Keeps _)))

    pub try_deduct-Keeps :
        (reason : String) (meta : LedgerMeta) → Keeps P e (try_deduct uid cost reason meta)
    unfolding try_deduct
    try_deduct-Keeps reason meta =
        if-Keeps _
          (bind-Keeps (attempt-Keeps ensure_account-Keeps) λ b.
            then-Keeps (if-Keeps _ (insert_ledger-Keeps _ _ _) (pure-Keeps none)) (pure-Keeps _))
          (bind-Keeps (attempt-Keeps ensure_account-Keeps)
            (elim [ none ↦ pure-Keeps _ | some b ↦ deduct-Keeps reason meta ]))

  charge_account-Keeps :
      (cost : ℤ) (reason : String) (meta : LedgerMeta)
      → Updates P uid (spend cost)
      → Keeps P e (charge_account uid cost reason meta)
  unfolding charge_account
  charge_account-Keeps cost reason meta u =
      if-Keeps _ (then-Keeps (insert_ledger-Keeps _ _ _) get_balance-Keeps) (
        bind-Keeps (attempt-Keeps (statement-Keeps _ s (update-Lands (spend cost) uid u))) (elim [
          | none ↦ get_balance-Keeps
          | some _ ↦ then-Keeps (insert_ledger-Keeps _ _ _) get_balance-Keeps
        ]))

  pub settle-Keeps :
      (cost : ℤ) (reason : String) (meta : LedgerMeta)
      → Updates P uid (spend cost)
      → Keeps P e (settle uid cost reason meta)
  unfolding settle
  settle-Keeps cost reason meta u =
      bind-Keeps (attempt-Keeps ensure_account-Keeps)
        (elim [ none ↦ pure-Keeps _ | some b ↦ charge_account-Keeps cost reason meta u ])

  pub grant-Keeps :
      (delta : ℤ) (reason : String) (meta : LedgerMeta)
      → Updates P uid (credit delta)
      → Keeps P e (grant uid delta reason meta)
  unfolding grant
  grant-Keeps delta reason meta u = then-Keeps ensure_account-Keeps (
      then-Keeps (statement-Keeps _ s (update-Lands (credit delta) uid u))
        (then-Keeps (insert_ledger-Keeps _ _ _) (fetch_one-Keeps _ s)))

  pub set_balance-Keeps :
      (b : ℤ) (reason : String) (meta : LedgerMeta)
      → Updates P uid (overwrite b)
      → Keeps P e (set_balance uid b reason meta)
  unfolding set_balance
  set_balance-Keeps b reason meta u = bind-Keeps ensure_account-Keeps λ before.
      then-Keeps (statement-Keeps _ s (update-Lands (overwrite b) uid u))
        (then-Keeps (if-Keeps _ (pure-Keeps none) (insert_ledger-Keeps _ _ _)) (pure-Keeps b))
