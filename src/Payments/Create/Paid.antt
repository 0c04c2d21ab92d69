-- ===== src/Payments/Create/Paid.antt =====
-- From a new order to its credit.
use yunova.Base.{
  ℕ, suc, ◌*◌, ◌^◌, ◌<◌, ◌≡◌, refl, sym, ap, ◌∙◌, Bool, false, true, Option, none, some, List, ◌∷◌,
  String, arith, inl, inr, Option-cases, eq_refl, if◌then◌else◌, subst, ◌||◌,
}
use yunova.Base.Int.{ℤ, pos, ltb_ℤ, mul_i64}
use yunova.Base.Text.{codes, str_trim}
use yunova.Schema.{Tables, Account, Order, LedgerRow}
use yunova.Db.{Action, Conn, pure, quiet, running, ◌>>=◌}
use yunova.Db.Runs.{bind_at}
use yunova.Quota.Settings.{get_setting, get_setting_i64, get_setting_bool}
use yunova.Quota.Pricing.{micro_quota}
use yunova.Quota.LedgerMeta
use yunova.Quota.Accounts.{add_row, set_account, credit}
use yunova.Payments.{
  Notice, mark_paid, is_pending, reason_of, success, find_order, settle_notice, settled_elsewhere,
  validate_payway,
}
use yunova.Payments.Money.{reported_cents}
use yunova.Payments.Roundtrip.{reported_cents-money_of_yuan}
use yunova.Payments.Credit.{credited, is_replayed, settle_notice-credits}
use yunova.Payments.Create.{
  Created, CreateOrderResp, ordered, Gateway, random_out_trade_no, new_order, insert_order, place,
  answer_created, gateway, is_missing, create_with, create_order, create_if_valid, place_within,
  place_if_set, bad_amount, not_configured, not_enabled, money, s,
}
use yunova.Payments.Create.Printed.{money_coded}

-- Where the answer of an action is an order, it has the number of `o`, which is stored.
abbrev Places : Order → Tables → CreateOrderResp → Option Created × Conn → Type 0
Places o t x (answer, c) =
    answer ≡ some (ordered x)
    → (x.out_trade_no ≡ o.out_trade_no) × (c.tables ≡ record t { orders = o ∷ t.orders })

number_of : Option Created → String
number_of (some (ordered x)) = x.out_trade_no
number_of _ = ""

is_ordered : Option Created → Bool
is_ordered (some (ordered x)) = true
is_ordered _ = false

abbrev ticked : ℕ → Conn → Conn
ticked n c = record { tables = c.tables; tick = n }

module _ (o : Order) (x : CreateOrderResp) (c : Conn) where
  -- A test that refuses, and otherwise goes on.
  if-Places :
      (b : Bool) (y : Created) (m : Action Created)
      → is_ordered (some y) ≡ false
      → Places o c.tables x (m quiet c)
      → Places o c.tables x ((if b then pure y else m) quiet c)
  unfolding is_ordered pure
  if-Places true y m h p = λ e. let same_test = ap is_ordered e in absurd cc
  if-Places false y m h p = p

  read-Places :
      {A : Type 0} (m : Action A) (k : A → Action Created) (a : A) (n : ℕ)
      → m quiet c ≡ (some a, ticked n c)
      → Places o c.tables x (k a quiet (ticked n c))
      → Places o c.tables x ((m >>= k) quiet c)
  read-Places m k a n h p =
      subst (Places o c.tables x) (sym (bind_at m k quiet c (ticked n c) a h)) p

gateway_read : (c : Conn) → (g : Gateway) × (n : ℕ) × (gateway quiet c ≡ (some g, ticked n c))
unfolding gateway s get_setting running
gateway_read c = (_, _, refl)

module _ (md5 encode : List ℕ → List ℕ) (x : CreateOrderResp) where
  place-Places :
      (g : Gateway) (o : Order) (yuan : ℤ) (c : Conn)
      → Places o c.tables x (place md5 encode g o yuan quiet c)
  unfolding place insert_order answer_created running find_order number_of
  place-Places g o yuan c = elim (Option-cases (find_order o.out_trade_no c.tables.orders)) [
    | inl new ↦ rw new (λ e. (sym (ap number_of e), refl))
    | inr (other, taken) ↦ rw taken (λ e. absurd cc)
  ]

  place_within-Places :
      (o : Order) (yuan least most : ℤ) (c : Conn)
      → Places o c.tables x (place_within md5 encode o yuan least most quiet c)
  unfolding place_within place_if_set is_ordered
  place_within-Places o yuan least most c =
      let (g, n, h) = gateway_read c in
      if-Places o x c (ltb_ℤ yuan least || ltb_ℤ most yuan) (bad_amount least most)
        (gateway >>= place_if_set md5 encode o yuan) refl
        (read-Places o x c gateway (place_if_set md5 encode o yuan) g n h (
          if-Places o x (ticked n c) (is_missing g) not_configured (place md5 encode g o yuan) refl
            (place-Places g o yuan (ticked n c))))

  create_with-Places :
      (user_id ts r : ℕ) (yuan : ℤ) (payway : String) (c : Conn)
      → Places
          (new_order user_id (random_out_trade_no ts user_id r) payway yuan)
          c.tables
          x
          (create_with md5 encode user_id ts r yuan payway quiet c)
  unfolding create_with get_setting_i64 get_setting running
  create_with-Places user_id ts r yuan payway c =
      place_within-Places (new_order user_id (random_out_trade_no ts user_id r) payway yuan) yuan _
        _ (ticked (suc (suc c.tick)) c)

  create_order-Places :
      (user_id ts r : ℕ) (payway way : String) (yuan : ℤ) (c : Conn)
      → validate_payway (str_trim payway) ≡ some way
      → Places
          (new_order user_id (random_out_trade_no ts user_id r) way yuan)
          c.tables
          x
          (create_order md5 encode user_id ts r payway yuan quiet c)
  unfolding create_order create_if_valid get_setting_bool get_setting running is_ordered
  create_order-Places user_id ts r payway way yuan c valid = rw valid (
      if-Places _ x (ticked (suc c.tick) c) _ not_enabled
        (create_with md5 encode user_id ts r yuan way) refl
        (create_with-Places user_id ts r yuan way (ticked (suc c.tick) c)))

fresh_after :
    (n : Notice) (o : Order) (os : List Order) (tn : Option String)
    → n.trade_no ≡ tn
    → o.trade_no ≡ none
    → is_replayed n os ≡ false
    → is_replayed n (o ∷ os) ≡ false
unfolding settled_elsewhere
fresh_after n o os none t h f = rw t refl
fresh_after n o os (some tn) t h f = ground (arith, t, h, f)

micro_quota_of :
    (yuan : ℕ)
    → yuan * micro_quota < 2 ^ 63
    → mul_i64 (pos yuan) (pos micro_quota) ≡ pos (yuan * micro_quota)
unfolding mul_i64
micro_quota_of yuan h = ground arith

cents_of :
    (yuan : ℕ) → yuan * micro_quota < 2 ^ 63 → mul_i64 (pos yuan) (pos 100) ≡ pos (yuan * 100)
unfolding mul_i64
cents_of yuan h = ground arith

found_first :
    (number : String) (o : Order) (os : List Order)
    → number ≡ o.out_trade_no
    → find_order number (o ∷ os) ≡ some o
unfolding find_order
found_first number o os h = rw h (rw (eq_refl o.out_trade_no) refl)

-- The row in the ledger of an order's payment.
abbrev pub recharge_row : ℕ → ℤ → String → LedgerRow
recharge_row user_id quota number = record {
  user_id = user_id;
  delta = quota;
  reason = reason_of number;
  meta = LedgerMeta.recharge;
}

credited_balance :
    (n : Notice) (o : Order) (a : Account) (t : Tables)
    → (credited n o a t).balances o.user_id ≡ some (credit o.quota a)
unfolding add_row set_account
credited_balance n o a t = ground arith

found_paid :
    (n : Notice) (o : Order) (os : List Order)
    → n.out_trade_no ≡ o.out_trade_no
    → o.status ≡ "pending"
    → find_order n.out_trade_no (mark_paid n.out_trade_no n.trade_no (o ∷ os))
      ≡ some (record o { status = "paid"; trade_no = n.trade_no })
unfolding mark_paid is_pending find_order
found_paid n o os h p = rw (h, p, eq_refl o.out_trade_no) (rw (eq_refl o.out_trade_no) refl)

-- Without failures and other requests: where `create_order` answers with an order of a whole number of
-- yuan, whose quota is below 2 ^ 63, a later notice of that number and of the money that was sent, whose
-- gateway's number no order has, succeeds; the user, who has an account, has a million micro-quota more for
-- each yuan, with one row in the ledger, and the order is found paid.
pub create_order-settle_notice :
    (md5 encode : List ℕ → List ℕ) (user_id ts r : ℕ) (payway way : String) (yuan : ℕ)
    (x : CreateOrderResp) (n : Notice) (a : Account) (c : Conn)
    → validate_payway (str_trim payway) ≡ some way
    → yuan * micro_quota < 2 ^ 63
    → (create_order md5 encode user_id ts r payway (pos yuan) quiet c).0 ≡ some (ordered x)
    → n.out_trade_no ≡ x.out_trade_no
    → n.money ≡ money (pos yuan)
    → c.tables.balances user_id ≡ some a
    → is_replayed n c.tables.orders ≡ false
    → let made = create_order md5 encode user_id ts r payway (pos yuan) quiet c in
      let settled = settle_notice n quiet made.1 in
      let o = new_order user_id x.out_trade_no way (pos yuan) in
      (settled.0 ≡ some success)
      × (settled.1.tables.balances user_id ≡ some (credit (pos (yuan * micro_quota)) a))
      × (settled.1.tables.ledger
          ≡ recharge_row user_id (pos (yuan * micro_quota)) x.out_trade_no ∷ c.tables.ledger)
      × (find_order x.out_trade_no settled.1.tables.orders
          ≡ some (record o { status = "paid"; trade_no = n.trade_no }))
unfolding new_order add_row set_account
create_order-settle_notice md5 encode user_id ts r payway way yuan x n a c valid bound e number paid
      known fresh =
    let o = new_order user_id x.out_trade_no way (pos yuan) in
    let os = c.tables.orders in
    let made = create_order md5 encode user_id ts r payway (pos yuan) quiet c in
    let (named, inserted) =
      create_order-Places md5 encode x user_id ts r payway way (pos yuan) c valid e in
    let stored =
      inserted
      ∙ ap (λ (k : String). record c.tables { orders = new_order user_id k way (pos yuan) ∷ os })
          (sym named) in
    let amount =
      ap (λ (m : String). reported_cents (codes m)) paid
      ∙ ap reported_cents (money_coded yuan)
      ∙ reported_cents-money_of_yuan yuan (omega arith)
      ∙ sym (cents_of yuan bound) in
    let (answered, tables) =
      settle_notice-credits n o a made.1 (ap (λ (t : Tables). t.balances user_id) stored ∙ known)
        (ap (λ (t : Tables). is_replayed n t.orders) stored
          ∙ fresh_after n o os n.trade_no refl refl fresh)
        (ap (λ (t : Tables). find_order n.out_trade_no t.orders) stored
          ∙ found_first n.out_trade_no o os number)
        refl amount in
    let final = tables ∙ ap (λ (t : Tables). credited n o a t) stored in
    (
      answered,
      ap (λ (t : Tables). t.balances user_id) final
          ∙ credited_balance n o a (record c.tables { orders = o ∷ os })
          ∙ ap (λ (q : ℤ). some (credit q a)) (micro_quota_of yuan bound),
      ap (λ (t : Tables). t.ledger) final
          ∙ ap (λ (q : ℤ). recharge_row user_id q n.out_trade_no ∷ c.tables.ledger)
              (micro_quota_of yuan bound)
          ∙ ap (λ (k : String). recharge_row user_id (pos (yuan * micro_quota)) k ∷ c.tables.ledger)
              number,
      ap (λ (t : Tables). find_order x.out_trade_no t.orders) final
          ∙ ap (λ (k : String). find_order k (mark_paid n.out_trade_no n.trade_no (o ∷ os)))
              (sym number)
          ∙ found_paid n o os number refl,
    )
