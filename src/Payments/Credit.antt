-- ===== src/Payments/Credit.antt =====
-- A verified notification for a pending order credits it: the order is paid, and its user has the
-- quota of the order more, with one row in the ledger.
use yunova.Base.{suc, ◌≡◌, ◌≢◌, Bool, false, none, some, List, [], ◌∷◌, String, eq_iff, arith}
use yunova.Base.Text.{codes}
use yunova.Schema.{Tables, Account, Order}
use yunova.Db.{Conn, quiet, running}
use yunova.Quota.LedgerMeta
use yunova.Quota.Accounts.{
  add_row, set_account, credit, grant, ensure_account, update_account, insert_ledger,
}
use yunova.Payments.{
  Notice, success, find_order, count_pending, is_pending, mark_paid, settle_order,
  settled_elsewhere, is_duplicate, has_duplicate, credit_order, settle_row, settle_notice, changed,
  index_violated, reason_of,
}
use yunova.Payments.Money.{reported_cents}

-- Some other order has the gateway's number already.
abbrev pub is_replayed : Notice → List Order → Bool
is_replayed n os = elim n.trade_no [
  | none ↦ false
  | some tn ↦ settled_elsewhere tn n.out_trade_no os
]

-- The tables after the credit.
abbrev pub credited : Notice → Order → Account → Tables → Tables
credited n o a t = add_row o.user_id o.quota (reason_of n.out_trade_no) LedgerMeta.recharge (
    set_account o.user_id (credit o.quota a)
      (record t { orders = mark_paid n.out_trade_no n.trade_no t.orders }))

pub count_pending-find_order :
    (number : String) (os : List Order) (o : Order)
    → find_order number os ≡ some o
    → o.status ≡ "pending"
    → count_pending number os ≢ 0
unfolding find_order count_pending is_pending
count_pending-find_order number [] o e p q = cc
count_pending-find_order number (x ∷ os) o e p q = ground (
  arith,
  count_pending-find_order number os o,
  eq_iff x.status "pending",
  eq_iff o.status "pending",
)

module _ (n : Notice) (o : Order) (a : Account) (c : Conn)
    (known : c.tables.balances o.user_id ≡ some a)
    (fresh : is_replayed n c.tables.orders ≡ false) where
  credit_order-credits :
      count_pending n.out_trade_no c.tables.orders ≢ 0
      → ((credit_order n o quiet c).0 ≡ some success)
        × ((credit_order n o quiet c).1.tables ≡ credited n o a c.tables)
  unfolding credit_order settle_order index_violated changed grant ensure_account update_account
      insert_ledger set_account add_row running
  credit_order-credits h = (ground arith, ground arith)

module _ (n : Notice) (o : Order) (a : Account) (c : Conn)
    (known : c.tables.balances o.user_id ≡ some a)
    (fresh : is_replayed n c.tables.orders ≡ false) where
  -- Where the user of an order has an account, no other order has the gateway's number, the order with
  -- the notice's number is pending, and the money reported is its amount, then with no failure and no
  -- other request the reply is success, the order is paid, and its quota is credited with one row.
  pub settle_notice-credits :
      find_order n.out_trade_no c.tables.orders ≡ some o
      → o.status ≡ "pending"
      → reported_cents (codes n.money) ≡ o.amount_cents
      → ((settle_notice n quiet c).0 ≡ some success)
        × ((settle_notice n quiet c).1.tables ≡ credited n o a c.tables)
  unfolding settle_notice settle_row is_duplicate has_duplicate running
  settle_notice-credits f p m =
      let pending = count_pending-find_order n.out_trade_no c.tables.orders o f p in
      let c1 : Conn = record { tables = c.tables; tick = suc c.tick } in
      let c2 : Conn = record { tables = c.tables; tick = suc (suc c.tick) } in
      let at1 = credit_order-credits n o a c1 known fresh pending in
      let at2 = credit_order-credits n o a c2 known fresh pending in
      ground (arith, at1, at2, eq_iff o.status "paid", eq_iff "pending" "paid")
