-- ===== src/Payments/Settlement.antt =====
-- What a notification can and cannot do.
use yunova.Base.{ℕ, ◌≡◌, refl, false, Option, none, some, List, String}
use yunova.Schema.{Tables, Account, Order, LedgerRow}
use yunova.Db.{Env}
use yunova.Db.Rules.{
  IsStable, Keeps, Lands, Answers, pure-Keeps, attempt-Keeps, bind-Keeps, if-Keeps, select-Keeps,
  statement-Ensures, attempt-Ensures, checked-Keeps,
}
use yunova.Payments.{
  Notice, success, fail, count_pending, settle_order, is_duplicate, credit_order, settle_row,
  settle_notice,
}

-- No order with this number is pending, and the balances and the ledger are these.
pub record IsSettled (number : String) (b : ℕ → Option Account) (l : List LedgerRow) (t : Tables)
    : Type 0 where
  pub none_pending : count_pending number t.orders ≡ 0
  pub balances : t.balances ≡ b
  pub ledger : t.ledger ≡ l

module _ (number : String) (b : ℕ → Option Account) (l : List LedgerRow) (tn : Option String) where
  no_change : (t : Tables) → IsSettled number b l t → settle_order number tn t ≡ some (0, t)
  unfolding settle_order
  no_change t h = rw h.none_pending refl

  settle_order-Lands :
      (t : Tables)
      → IsSettled number b l t
      → Lands (IsSettled number b l) (settle_order number tn t)
  settle_order-Lands t h = rw (no_change t h) h

  settle_order-Answers :
      (t : Tables) → IsSettled number b l t → Answers (λ rows. rows ≡ 0) (settle_order number tn t)
  settle_order-Answers t h = rw (no_change t h) refl

module _ {e : Env} (b : ℕ → Option Account) (l : List LedgerRow) (n : Notice)
    (s : IsStable (IsSettled n.out_trade_no b l) e) where
  credit_order-Keeps : (o : Order) → Keeps (IsSettled n.out_trade_no b l) e (credit_order n o)
  unfolding credit_order
  credit_order-Keeps o =
      checked-Keeps
        (attempt-Ensures (
          statement-Ensures (settle_order n.out_trade_no n.trade_no) s
            (settle_order-Lands n.out_trade_no b l n.trade_no)
            (settle_order-Answers n.out_trade_no b l n.trade_no)))
        (elim [ none ↦ λ q. pure-Keeps success | some rows ↦ λ q. rw q (pure-Keeps success) ])

  is_duplicate-Keeps :
      (tn : Option String) → Keeps (IsSettled n.out_trade_no b l) e (is_duplicate n.out_trade_no tn)
  unfolding is_duplicate
  is_duplicate-Keeps none = pure-Keeps false
  is_duplicate-Keeps (some tn) = bind-Keeps (attempt-Keeps (select-Keeps _ s)) (λ d. pure-Keeps _)

  settle_row-Keeps :
      (row : Option (Option Order)) → Keeps (IsSettled n.out_trade_no b l) e (settle_row n row)
  unfolding settle_row
  settle_row-Keeps none = pure-Keeps fail
  settle_row-Keeps (some none) = pure-Keeps fail
  settle_row-Keeps (some (some o)) = if-Keeps _ (pure-Keeps success) (
      if-Keeps _ (pure-Keeps fail) (
        bind-Keeps (is_duplicate-Keeps n.trade_no)
          (λ d. if-Keeps d (pure-Keeps fail) (credit_order-Keeps o))))

  -- A settled order is not credited again by this notice.
  pub settle_notice-Keeps : Keeps (IsSettled n.out_trade_no b l) e (settle_notice n)
  unfolding settle_notice
  settle_notice-Keeps = bind-Keeps (attempt-Keeps (select-Keeps _ s)) settle_row-Keeps
