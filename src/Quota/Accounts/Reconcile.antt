-- ===== src/Quota/Accounts/Reconcile.antt =====
-- Each operation keeps the ledger reconciled with the balances, where it runs alone and no statement
-- fails.
use yunova.Base.{ℕ, ◌≡◌, subst, sym, some, String, arith, inl, inr, true, Bool-cases, if◌then◌else◌}
use yunova.Base.Int.{
  ℤ, pos, max_i64, leb_ℤ, eqb_ℤ, ◌+ℤ◌, ◌-ℤ◌, ◌≤ℤ◌, int_laws, sub_i64, -ℤ_parts, eq_of_parts,
}
use yunova.Schema.{Tables, Account, LedgerMeta}
use yunova.Db.{Conn, quiet, running, statement, fetch_one, ◌>>◌}
use yunova.Quota.Accounts.{
  set_account, add_row, insert_ledger, ensure_account, get_balance, deduct_if_covered, deduct,
  try_deduct, settle, charge_account, grant, set_balance, spend, credit, overwrite, update_account,
  balance_of,
}
use yunova.Quota.Accounts.Quiet.{
  Reconciles, move-Reconciles, zero_row-Reconciles, same-Reconciles, ensure_account-IsOpened,
}

-- A write of the user's account `a` with its row.
moved :
    (uid : ℕ) (d : ℤ) (reason : String) (meta : LedgerMeta) (a b : Account) (t : Tables)
    → t.balances uid ≡ some a
    → b.balance ≡ d +ℤ a.balance
    → Reconciles t
    → Reconciles (add_row uid d reason meta (set_account uid b t))
moved uid d reason meta a b t e q h = move-Reconciles uid d reason meta b t (rw e q) h

spend_delta : (cost : ℤ) (a : Account) → (spend cost a).balance ≡ (pos 0 -ℤ cost) +ℤ a.balance
unfolding spend
spend_delta cost a = omega int_laws

credit_delta : (delta : ℤ) (a : Account) → (credit delta a).balance ≡ delta +ℤ a.balance
unfolding credit
credit_delta delta a = omega int_laws

-- The tables that each operation leaves on an account that is there.
module _ (uid : ℕ) (amount : ℤ) (reason : String) (meta : LedgerMeta) (a : Account) (c : Conn)
    (known : c.tables.balances uid ≡ some a) where
  deduct_tables : (deduct uid amount reason meta quiet c).1.tables ≡ (
      if leb_ℤ amount a.balance
      then add_row uid (pos 0 -ℤ amount) reason meta (set_account uid (spend amount a) c.tables)
      else c.tables)
  unfolding deduct deduct_if_covered insert_ledger running set_account add_row
  deduct_tables = ground arith

  charge_tables : (charge_account uid amount reason meta quiet c).1.tables ≡ (
      if leb_ℤ amount (pos 0)
      then add_row uid (pos 0) reason meta c.tables
      else add_row uid (pos 0 -ℤ amount) reason meta (set_account uid (spend amount a) c.tables))
  unfolding charge_account update_account insert_ledger get_balance ensure_account running
      set_account add_row
  charge_tables = ground arith

  credit_tables :
      ((statement (update_account (credit amount) uid)
          >> (insert_ledger uid amount reason meta >> fetch_one (balance_of uid)))
        quiet c).1.tables
      ≡ add_row uid amount reason meta (set_account uid (credit amount a) c.tables)
  unfolding update_account insert_ledger running set_account add_row
  credit_tables = ground arith

  overwrite_tables : (set_balance uid amount reason meta quiet c).1.tables ≡ (
      if eqb_ℤ (sub_i64 amount a.balance) (pos 0)
      then set_account uid (overwrite amount a) c.tables
      else add_row uid
          (sub_i64 amount a.balance)
          reason
          meta
          (set_account uid (overwrite amount a) c.tables))
  unfolding set_balance update_account insert_ledger ensure_account running set_account add_row
  overwrite_tables = ground arith

  deduct-Reconciles :
      Reconciles c.tables → Reconciles (deduct uid amount reason meta quiet c).1.tables
  deduct-Reconciles h = rw deduct_tables (elim (Bool-cases (leb_ℤ amount a.balance)) [
    | inl covered ↦ rw covered (
        moved uid (pos 0 -ℤ amount) reason meta a (spend amount a) c.tables known
          (spend_delta amount a) h)
    | inr short ↦ rw short h
  ])

  charge-Reconciles :
      Reconciles c.tables → Reconciles (charge_account uid amount reason meta quiet c).1.tables
  charge-Reconciles h = rw charge_tables (elim (Bool-cases (leb_ℤ amount (pos 0))) [
    | inl free ↦ rw free (zero_row-Reconciles uid reason meta c.tables h)
    | inr priced ↦ rw priced (
        moved uid (pos 0 -ℤ amount) reason meta a (spend amount a) c.tables known
          (spend_delta amount a) h)
  ])

module _ (uid : ℕ) (amount : ℤ) (reason : String) (meta : LedgerMeta) (c : Conn)
    (h : Reconciles c.tables) where
  try_deduct-Reconciles : Reconciles (try_deduct uid amount reason meta quiet c).1.tables
  unfolding try_deduct insert_ledger running
  try_deduct-Reconciles =
      let o = ensure_account-IsOpened uid c h in
      let c' = (ensure_account uid quiet c).1 in
      elim (Bool-cases (leb_ℤ amount (pos 0))) [
        | inl free ↦ elim (Bool-cases (eqb_ℤ amount (pos 0))) [
          | inl z ↦ rw (free, z) (zero_row-Reconciles uid reason meta c'.tables o.sums)
          | inr n ↦ rw (free, n) o.sums
        ]
        | inr priced ↦
            rw (priced, o.value)
              (deduct-Reconciles uid amount reason meta o.account c' o.found o.sums)
      ]

  settle-Reconciles : Reconciles (settle uid amount reason meta quiet c).1.tables
  unfolding settle running ensure_account
  settle-Reconciles =
      let o = ensure_account-IsOpened uid c h in
      let c' = (ensure_account uid quiet c).1 in
      rw o.value (charge-Reconciles uid amount reason meta o.account c' o.found o.sums)

  grant-Reconciles : Reconciles (grant uid amount reason meta quiet c).1.tables
  unfolding grant running ensure_account
  grant-Reconciles =
      let o = ensure_account-IsOpened uid c h in
      let c' = (ensure_account uid quiet c).1 in
      rw o.value (
        subst Reconciles (sym (credit_tables uid amount reason meta o.account c' o.found)) (
          moved uid amount reason meta o.account (credit amount o.account) c'.tables o.found
            (credit_delta amount o.account) o.sums))

-- Where no statement fails and no other request runs, a deduction, a settlement and a grant of any
-- amount each keep every balance the sum of its user's rows in the ledger.
pub moves-Reconciles :
    (uid : ℕ) (amount : ℤ) (reason : String) (meta : LedgerMeta) (c : Conn)
    → Reconciles c.tables
    → Reconciles (try_deduct uid amount reason meta quiet c).1.tables
      × Reconciles (settle uid amount reason meta quiet c).1.tables
      × Reconciles (grant uid amount reason meta quiet c).1.tables
moves-Reconciles uid amount reason meta c h = (
  try_deduct-Reconciles uid amount reason meta c h,
  settle-Reconciles uid amount reason meta c h,
  grant-Reconciles uid amount reason meta c h,
)

in_range_sub :
    (a b : ℤ) → pos 0 ≤ℤ a → a ≤ℤ max_i64 → pos 0 ≤ℤ b → b ≤ℤ max_i64 → sub_i64 a b ≡ a -ℤ b
unfolding sub_i64
in_range_sub a b ha ka hb kb = ground arith

restored : (b a : ℤ) → b ≡ b -ℤ a +ℤ a
restored b a = omega int_laws

equal : (b a : ℤ) → eqb_ℤ (b -ℤ a) (pos 0) ≡ true → b ≡ a
equal b a h = ground (arith, -ℤ_parts b a, eq_of_parts b a)

-- Where no statement fails and no other request runs, `set_balance` keeps every balance the sum of its
-- user's rows in the ledger, the old and the new balance lying between 0 and the maximum of `i64`.
set_balance-Reconciles :
    (uid : ℕ) (b : ℤ) (reason : String) (meta : LedgerMeta) (a : Account) (c : Conn)
    → c.tables.balances uid ≡ some a
    → pos 0 ≤ℤ a.balance
    → a.balance ≤ℤ max_i64
    → pos 0 ≤ℤ b
    → b ≤ℤ max_i64
    → Reconciles c.tables
    → Reconciles (set_balance uid b reason meta quiet c).1.tables
unfolding overwrite
set_balance-Reconciles uid b reason meta a c known ha ka hb kb h =
    rw (overwrite_tables uid b reason meta a c known, in_range_sub b a.balance hb kb ha ka)
      (elim (Bool-cases (eqb_ℤ (b -ℤ a.balance) (pos 0))) [
        | inl same ↦
            rw same
              (same-Reconciles uid (overwrite b a) c.tables (rw known (equal b a.balance same)) h)
        | inr other ↦ rw other (
            moved uid (b -ℤ a.balance) reason meta a (overwrite b a) c.tables known
              (restored b a.balance) h)
      ])
