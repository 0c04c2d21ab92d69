-- ===== src/Quota/Accounts/Covered.antt =====
-- `try_deduct` and `grant` of src/quota.rs at an account that is open, where no statement fails.
use yunova.Base.{ℕ, zero, suc, ◌≡◌, refl, ap, ◌∙◌, Option, some, String, arith, inl, inr, true, ◌⊎◌}
use yunova.Base.Int.{ℤ, pos, negsuc, leb_ℤ, ◌≤ℤ◌, ◌-ℤ◌, ◌+ℤ◌, int_laws}
use yunova.Schema.{Tables, Account, LedgerMeta}
use yunova.Db.{Conn, quiet, running}
use yunova.Quota.Accounts.Quiet.{try_deduct_known}
use yunova.Quota.Accounts.{
  Outcome, ok, ensure_account, set_account, add_row, insert_ledger, try_deduct, grant, spend,
  credit, update_account,
}

abbrev later : Conn → Conn
later c = record { tables = c.tables; tick = suc c.tick }

abbrev pub Taken : ℕ → ℤ → Account → Option Outcome × Conn → Type 0
Taken uid cost a r =
    (r.0 ≡ some (ok (a.balance -ℤ cost))) × (r.1.tables.balances uid ≡ some (spend cost a))

positive-Taken :
    (uid : ℕ) (cost : ℤ) (reason : String) (meta : LedgerMeta) (a : Account) (c : Conn)
    → c.tables.balances uid ≡ some a
    → pos 1 ≤ℤ cost
    → cost ≤ℤ a.balance
    → Taken uid cost a (try_deduct uid cost reason meta quiet c)
unfolding set_account add_row
positive-Taken uid cost reason meta a c known p h =
    let (v, t) = try_deduct_known uid cost reason meta a c known p in
    let e : leb_ℤ cost a.balance ≡ true = ground arith in
    (v ∙ rw e refl, ap (λ (t : Tables). t.balances uid) t ∙ rw e (ground arith))

minus_zero : (a : ℤ) → a -ℤ pos 0 ≡ a
minus_zero a = omega int_laws

spend_zero : (a : Account) → spend (pos 0) a ≡ a
unfolding spend
spend_zero a =
    let plus_zero : a.lifetime_used +ℤ pos 0 ≡ a.lifetime_used = omega int_laws in
    rw (minus_zero a.balance, plus_zero) refl

ensure_known :
    (uid : ℕ) (a : Account) (c : Conn)
    → c.tables.balances uid ≡ some a
    → ensure_account uid quiet c ≡ (some a.balance, later c)
unfolding ensure_account running
ensure_known uid a c known = rw known refl

free-Taken :
    (uid : ℕ) (reason : String) (meta : LedgerMeta) (a : Account) (c : Conn)
    → c.tables.balances uid ≡ some a
    → Taken uid (pos 0) a (try_deduct uid (pos 0) reason meta quiet c)
unfolding try_deduct insert_ledger running add_row
free-Taken uid reason meta a c known =
    rw (ensure_known uid a c known, minus_zero a.balance, spend_zero a) (refl, known)

pub nonneg_cases : (cost : ℤ) → pos 0 ≤ℤ cost → (cost ≡ pos 0) ⊎ (pos 1 ≤ℤ cost)
nonneg_cases (pos zero) h = inl refl
nonneg_cases (pos (suc n)) h = inr (omega arith)
nonneg_cases (negsuc n) h = absurd (omega arith)

-- A cost that the balance covers is taken.
pub covered-Taken :
    (uid : ℕ) (cost : ℤ) (reason : String) (meta : LedgerMeta) (a : Account) (c : Conn)
    → c.tables.balances uid ≡ some a
    → pos 0 ≤ℤ cost
    → cost ≤ℤ a.balance
    → Taken uid cost a (try_deduct uid cost reason meta quiet c)
covered-Taken uid cost reason meta a c known p h = elim (nonneg_cases cost p) [
  | inl z ↦ rw z (free-Taken uid reason meta a c known)
  | inr q ↦ positive-Taken uid cost reason meta a c known q h
]

pub grant_known :
    (uid : ℕ) (delta : ℤ) (reason : String) (meta : LedgerMeta) (a : Account) (c : Conn)
    → c.tables.balances uid ≡ some a
    → (grant uid delta reason meta quiet c).1.tables.balances uid ≡ some (credit delta a)
unfolding grant ensure_account update_account insert_ledger set_account add_row running
grant_known uid delta reason meta a c known = ground arith

pub credit_zero : (a : Account) → credit (pos 0) a ≡ a
unfolding credit
credit_zero a = let e : a.balance +ℤ pos 0 ≡ a.balance = omega int_laws in rw e refl
