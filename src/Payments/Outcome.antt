-- ===== src/Payments/Outcome.antt =====
-- What becomes of a verified notification for a pending order, by the statements that fail.
use yunova.Base.{
  ℕ, suc, ◌≡◌, ◌≢◌, Bool, true, false, ◌||◌, Option, none, some, eq_iff, arith, inl, inr,
  Bool-cases,
}
use yunova.Base.Text.{codes}
use yunova.Schema.{Tables, Account, Order}
use yunova.Db.{Env, Conn, running}
use yunova.Quota.Accounts.{
  add_row, set_account, credit, grant, ensure_account, update_account, insert_ledger,
}
use yunova.Payments.{
  Notice, Reply, success, fail, find_order, count_pending, mark_paid, settle_order, is_duplicate,
  has_duplicate, credit_order, settle_row, settle_notice, changed, index_violated,
}
use yunova.Payments.Money.{reported_cents}
use yunova.Payments.Credit.{is_replayed, credited, count_pending-find_order}

-- The reply and the tables after a notification for the order `o` of an account `a`, where the look-up
-- of the order failed, else where its transition to paid failed, else where its credit failed, else
-- where the row of the ledger failed.
abbrev pub outcome :
    (unread lost uncredited unlogged : Bool) → Notice → Order → Account → Tables → Reply × Tables
outcome true lost uncredited unlogged n o a t = (fail, t)
outcome false true uncredited unlogged n o a t = (success, t)
outcome false false true unlogged n o a t =
    (success, record t { orders = mark_paid n.out_trade_no n.trade_no t.orders })
outcome false false false true n o a t = (
  success,
  set_account o.user_id (credit o.quota a)
      (record t { orders = mark_paid n.out_trade_no n.trade_no t.orders }),
)
outcome false false false false n o a t = (success, credited n o a t)

-- An action answered so, and left these tables.
abbrev pub Yields : Option Reply × Conn → Reply × Tables → Type 0
Yields r x = (r.0 ≡ some x.0) × (r.1.tables ≡ x.1)

-- The tick of the UPDATE that marks the order paid.
abbrev pub transition : Notice → ℕ → ℕ
transition n tick = elim n.trade_no [ none ↦ suc tick | some tn ↦ suc (suc tick) ]

-- Nobody else is connected, and these statements fail.
abbrev pub failing : (ℕ → Bool) → Env
failing fails = record { fails = fails; others = λ n t. t }

module _ (n : Notice) (o : Order) (a : Account) (fails : ℕ → Bool) (c : Conn)
    (known : c.tables.balances o.user_id ≡ some a) (fresh : is_replayed n c.tables.orders ≡ false)
    (pending : count_pending n.out_trade_no c.tables.orders ≢ 0) where
  credit_order-outcome : Yields (credit_order n o (failing fails) c) (
      outcome false
        (fails c.tick)
        (fails (suc c.tick) || fails (suc (suc c.tick)))
        (fails (suc (suc (suc c.tick))))
        n
        o
        a
        c.tables)
  unfolding credit_order settle_order index_violated changed grant ensure_account update_account
      insert_ledger set_account add_row running
  credit_order-outcome = ground arith

module _ (n : Notice) (o : Order) (a : Account) (fails : ℕ → Bool) (c : Conn)
    (known : c.tables.balances o.user_id ≡ some a)
    (fresh : is_replayed n c.tables.orders ≡ false) where
  unread_case : fails c.tick ≡ true → Yields (settle_notice n (failing fails) c) (fail, c.tables)
  unfolding settle_notice settle_row running
  unread_case f = ground arith

  module _ (f : find_order n.out_trade_no c.tables.orders ≡ some o) (p : o.status ≡ "pending")
      (m : reported_cents (codes n.money) ≡ o.amount_cents) (q : fails c.tick ≡ false) where
    settle_notice-credit_order :
        settle_notice n (failing fails) c
        ≡ credit_order n o (failing fails) (record c { tick = transition n c.tick })
    unfolding settle_notice settle_row is_duplicate has_duplicate running
    settle_notice-credit_order = ground (arith, eq_iff o.status "paid", eq_iff "pending" "paid")

  -- Where the order with a notice's number is pending, the money reported is its amount, its user has
  -- an account, no other order has the gateway's number, and no other request runs, the statements
  -- that fail decide what becomes of the notice. Where the look-up of the order fails, the reply is
  -- fail and nothing changes. Else, where the UPDATE that marks the order paid fails, the reply is
  -- success although nothing changes. Else the reply is success and the order is paid; that is all that
  -- changes where the look-up of the account or the UPDATE of its balance fails, and otherwise the
  -- quota of the order is credited to its user, with one row in the ledger unless that INSERT fails.
  pub settle_notice-outcome :
      find_order n.out_trade_no c.tables.orders ≡ some o
      → o.status ≡ "pending"
      → reported_cents (codes n.money) ≡ o.amount_cents
      → let u = transition n c.tick in
        Yields (settle_notice n (failing fails) c) (
          outcome
            (fails c.tick)
            (fails u)
            (fails (suc u) || fails (suc (suc u)))
            (fails (suc (suc (suc u))))
            n
            o
            a
            c.tables)
  settle_notice-outcome f p m = elim (Bool-cases (fails c.tick)) [
    | inl q ↦ rw q (unread_case q)
    | inr q ↦
        rw (q, settle_notice-credit_order f p m q)
          (credit_order-outcome n o a fails (record c { tick = transition n c.tick }) known fresh
            (count_pending-find_order n.out_trade_no c.tables.orders o f p))
  ]
