-- ===== src/Quota/Accounts/Safety.antt =====
-- No deduction overdraws an account, and no operation on one user's account changes another's, under
-- every interleaving with requests that do the same and under any failures.
use yunova.Base.{ℕ, ◌≡◌, ◌≢◌, Option, some, String, arith}
use yunova.Base.Int.{ℤ, pos, ◌≤ℤ◌, int_laws}
use yunova.Schema.{Tables, Account, LedgerMeta}
use yunova.Db.{Env, Conn}
use yunova.Db.Rules.{IsStable}
use yunova.Quota.Accounts.{
  set_account, add_row, try_deduct, settle, grant, set_balance, spend, credit,
}
use yunova.Quota.Accounts.Writes.{
  Opens, try_deduct-Keeps, settle-Keeps, grant-Keeps, set_balance-Keeps,
}

-- No balance is below zero.
abbrev pub IsSolvent : Tables → Type 0
IsSolvent t = (u : ℕ) (a : Account) → t.balances u ≡ some a → pos 0 ≤ℤ a.balance

set_account-IsSolvent :
    (uid : ℕ) (a : Account) (t : Tables)
    → pos 0 ≤ℤ a.balance
    → IsSolvent t
    → IsSolvent (set_account uid a t)
unfolding set_account
set_account-IsSolvent uid a t n h u b e = ground (arith, h u b)

IsSolvent-Opens : (uid : ℕ) → Opens IsSolvent uid
unfolding add_row
IsSolvent-Opens uid = record {
  row = λ delta reason meta t h. h;
  account = λ b t n new h.
      set_account-IsSolvent uid (record { balance = b; lifetime_used = pos 0 }) t n h;
}

spend_covered : (cost : ℤ) (a : Account) → cost ≤ℤ a.balance → pos 0 ≤ℤ (spend cost a).balance
unfolding spend
spend_covered cost a h = omega int_laws

credit_nonneg :
    (delta : ℤ) (a : Account)
    → pos 0 ≤ℤ delta
    → pos 0 ≤ℤ a.balance
    → pos 0 ≤ℤ (credit delta a).balance
unfolding credit
credit_nonneg delta a h k = omega int_laws

-- Whichever statements fail, and whatever other requests do between them that keeps every balance at
-- zero or more, `try_deduct` keeps every balance at zero or more.
pub try_deduct-IsSolvent :
    (e : Env)
    → IsStable IsSolvent e
    → (uid : ℕ) (cost : ℤ) (reason : String) (meta : LedgerMeta) (c : Conn) → IsSolvent c.tables
    → IsSolvent (try_deduct uid cost reason meta e c).1.tables
try_deduct-IsSolvent e s uid cost reason meta c h =
    (try_deduct-Keeps s uid (IsSolvent-Opens uid) cost
        (λ a t old le k. set_account-IsSolvent uid (spend cost a) t (spend_covered cost a le) k)
        reason meta).apply
      c h

-- Whichever statements fail, and whatever other requests do between them that keeps every balance at
-- zero or more, a `grant` of an amount that is not negative keeps every balance at zero or more.
grant-IsSolvent :
    (e : Env)
    → IsStable IsSolvent e
    → (uid : ℕ) (delta : ℤ) (reason : String) (meta : LedgerMeta) (c : Conn) → pos 0 ≤ℤ delta
    → IsSolvent c.tables
    → IsSolvent (grant uid delta reason meta e c).1.tables
grant-IsSolvent e s uid delta reason meta c n h =
    (grant-Keeps s uid (IsSolvent-Opens uid) delta reason meta (λ a t old k.
        set_account-IsSolvent uid (credit delta a) t (credit_nonneg delta a n (k uid a old))
          k)).apply
      c h

-- The row of user `v` is `r`.
abbrev pub Holds : ℕ → Option Account → Tables → Type 0
Holds v r t = t.balances v ≡ r

set_account-Holds :
    (uid v : ℕ) (r : Option Account) (a : Account) (t : Tables)
    → uid ≢ v
    → Holds v r t
    → Holds v r (set_account uid a t)
unfolding set_account
set_account-Holds uid v r a t ne h = ground arith

Holds-Opens : (uid v : ℕ) (r : Option Account) → uid ≢ v → Opens (Holds v r) uid
unfolding add_row
Holds-Opens uid v r ne = record {
  row = λ delta reason meta t h. h;
  account = λ b t n new h. set_account-Holds uid v r _ t ne h;
}

-- An operation on one user's account leaves the row of every other user as it is, whichever
-- statements fail and whatever other requests do that keep that row.
pub others_untouched :
    (e : Env) (uid v : ℕ) (r : Option Account)
    → IsStable (Holds v r) e
    → uid ≢ v
    → (amount : ℤ) (reason : String) (meta : LedgerMeta) (c : Conn) → Holds v r c.tables
    → Holds v r (try_deduct uid amount reason meta e c).1.tables
      × Holds v r (settle uid amount reason meta e c).1.tables
      × Holds v r (grant uid amount reason meta e c).1.tables
      × Holds v r (set_balance uid amount reason meta e c).1.tables
others_untouched e uid v r s ne amount reason meta c start =
    let o = Holds-Opens uid v r ne in
    (
      (try_deduct-Keeps s uid o amount (λ a t old le h. set_account-Holds uid v r _ t ne h) reason
            meta).apply
          c start,
      (settle-Keeps s uid o amount reason meta
            (λ a t old h. set_account-Holds uid v r _ t ne h)).apply
          c start,
      (grant-Keeps s uid o amount reason meta
            (λ a t old h. set_account-Holds uid v r _ t ne h)).apply
          c start,
      (set_balance-Keeps s uid o amount reason meta
            (λ a t old h. set_account-Holds uid v r _ t ne h)).apply
          c start,
    )
