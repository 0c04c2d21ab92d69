-- ===== src/Payments.antt =====
-- src/payments.rs: top-up orders and the notifications of the payment gateway.
pub mod Money
pub mod Roundtrip
pub mod Create
pub mod Credit
pub mod Replay
pub mod Outcome
pub mod Settlement
use yunova.Base.{
  ℕ, zero, suc, ◌+◌, leb, ◌≡◌, Bool, true, false, not, ◌&&◌, ◌||◌, Option, none, some, List, [],
  ◌∷◌, ◌++◌, map, String, ◌==◌, if◌then◌else◌,
}
use Prim.Native.String
use text.Mathlib.Text.{◌==◌ as str_eq}
use yunova.Base.Int.{ℤ, pos, max_ℤ, ltb_ℤ, eqb_ℤ}
use yunova.Base.Text.{codes, same, to_ascii_lowercase}
use yunova.Schema.{Tables, Order}
use yunova.Db.{Action, pure, statement, attempt, select, ◌>>=◌, ◌>>◌}
use yunova.Quota.LedgerMeta
use yunova.Quota.Settings.{get_setting, get_setting_bool, get_setting_i64}
use yunova.Quota.Accounts.{grant}
use yunova.Payments.Money.{reported_cents}

-- The parameters of a request, sorted by key.
abbrev pub Params : Type 0
Params = List (String × String)

unfoldable pub param : String → Params → Option String
param k [] = none
param k ((j, v) ∷ ps) = if str_eq j k then some v else param k ps

-- The signed part of the parameters: not the signature, and nothing empty.
unfoldable pub signed : Params → Params
signed [] = []
signed ((k, v) ∷ ps) =
    let rest = signed ps in
    if str_eq k "sign" || str_eq k "sign_type" || str_eq v "" then rest else (k, v) ∷ rest

unfoldable pub join : Params → List ℕ
join [] = []
join ((k, v) ∷ []) = codes k ++ (b'=' ∷ codes v)
join ((k, v) ∷ p ∷ ps) = codes k ++ (b'=' ∷ (codes v ++ (b'&' ∷ join (p ∷ ps))))

-- `eq_ignore_ascii_case`
unfoldable pub same_ignoring_case : List ℕ → List ℕ → Bool
same_ignoring_case a b = same (to_ascii_lowercase a) (to_ascii_lowercase b)

-- `md5` gives the digest of a text in lower-case hexadecimal.
unfoldable pub epay_sign : (List ℕ → List ℕ) → Params → String → List ℕ
epay_sign md5 params key = md5 (join (signed params) ++ codes key)

-- `.unwrap_or_default()` on a setting or parameter
abbrev pub or_empty : Option String → String
or_empty none = ""
or_empty (some v) = v

-- What a verified notification reports.
pub record Notice : Type 0 where
  pub out_trade_no : String
  pub money : String
  pub trade_no : Option String

pub data Reply : Type 0 where
  success fail : Reply

notice : Params → Option String → Option Notice
notice params none = none
notice params (some out_trade_no) =
    if str_eq (or_empty (param "trade_status" params)) "TRADE_SUCCESS"
    then some (record {
      out_trade_no = out_trade_no;
      money = or_empty (param "money" params);
      trade_no = param "trade_no" params;
    })
    else none

verify_sign : (List ℕ → List ℕ) → Params → String → Option String → Option Notice
unfolding notice
verify_sign md5 params key none = none
verify_sign md5 params key (some sign) =
    if same_ignoring_case (epay_sign md5 params key) (codes sign)
    then notice params (param "out_trade_no" params)
    else none

verify_pid : (List ℕ → List ℕ) → Params → String → String → Option String → Option Notice
unfolding verify_sign
verify_pid md5 params expected_pid key none = none
verify_pid md5 params expected_pid key (some pid) =
    if str_eq pid expected_pid then verify_sign md5 params key (param "sign" params) else none

-- The checks of `process_notify` before it looks for the order.
unfoldable pub verify : (List ℕ → List ℕ) → Params → String → String → Option Notice
unfolding verify_pid
verify md5 params expected_pid key =
    if str_eq expected_pid "" || str_eq key ""
    then none
    else verify_pid md5 params expected_pid key (param "pid" params)

-- `SELECT … WHERE out_trade_no = ?`, which is unique.
unfoldable pub find_order : String → List Order → Option Order
find_order number [] = none
find_order number (o ∷ os) = if str_eq o.out_trade_no number then some o else find_order number os

is_settled_by : String → Option String → Bool
is_settled_by tn none = false
is_settled_by tn (some t) = str_eq t tn

-- Some other order already has this `trade_no`.
unfoldable pub settled_elsewhere : String → String → List Order → Bool
unfolding is_settled_by
settled_elsewhere tn number [] = false
settled_elsewhere tn number (o ∷ os) =
    is_settled_by tn o.trade_no && not (str_eq o.out_trade_no number)
    || settled_elsewhere tn number os

unfoldable pub is_pending : String → Order → Bool
is_pending number o = str_eq o.out_trade_no number && str_eq o.status "pending"

-- The pending order with this number becomes paid.
unfoldable pub mark_paid : String → Option String → List Order → List Order
mark_paid number tn [] = []
mark_paid number tn (o ∷ os) =
    let paid = record o { status = "paid"; trade_no = tn } in
    (if is_pending number o then paid else o) ∷ mark_paid number tn os

unfoldable pub count_pending : String → List Order → ℕ
count_pending number [] = 0
count_pending number (o ∷ os) =
    let rest = count_pending number os in if is_pending number o then suc rest else rest

-- The unique index on `trade_no` refuses a second order with it.
index_violated : String → Option String → List Order → Bool
index_violated number none os = false
index_violated number (some tn) os = settled_elsewhere tn number os

-- `UPDATE … SET status = 'paid' … WHERE out_trade_no = ? AND status = 'pending'`
unfoldable pub settle_order : String → Option String → Tables → Option (ℕ × Tables)
unfolding index_violated
settle_order number tn t =
    if count_pending number t.orders == 0
    then some (0, t)
    else if index_violated number tn t.orders
    then none
    else some (count_pending number t.orders, record t { orders = mark_paid number tn t.orders })

has_duplicate : Option Bool → Bool
has_duplicate none = false
has_duplicate (some b) = b

is_duplicate : String → Option String → Action Bool
unfolding has_duplicate
is_duplicate number none = pure false
is_duplicate number (some tn) = do
  dup ← attempt (select (λ t. settled_elsewhere tn number t.orders))
  pure (has_duplicate dup)

changed : Option ℕ → ℕ
changed none = 0
changed (some n) = n

take_chars : ℕ → String → String
take_chars zero s = ""
take_chars (suc n) String.[] = ""
take_chars (suc n) (String.◌∷◌ c s) = String.◌∷◌ c (take_chars n s)

-- The reason in the ledger, at most 80 characters.
unfoldable pub reason_of : String → String
unfolding take_chars
reason_of number = take_chars 80 (String.◌++◌ "epay_recharge:" number)

-- The transition to paid, and the credit.
unfoldable pub credit_order : Notice → Order → Action Reply
unfolding changed
credit_order n o = do
  rows ← attempt (statement (settle_order n.out_trade_no n.trade_no))
  if changed rows == 0 then pure success else do
    attempt (grant o.user_id o.quota (reason_of n.out_trade_no) LedgerMeta.recharge)
    pure success

settle_row : Notice → Option (Option Order) → Action Reply
unfolding is_duplicate
settle_row n none = pure fail
settle_row n (some none) = pure fail
settle_row n (some (some o)) =
    if str_eq o.status "paid"
    then pure success
    else if not (eqb_ℤ (reported_cents (codes n.money)) o.amount_cents)
    then pure fail
    else do
      dup ← is_duplicate n.out_trade_no n.trade_no
      if dup then pure fail else credit_order n o

-- `process_notify` from the look-up of the order on.
unfoldable pub settle_notice : Notice → Action Reply
unfolding settle_row
settle_notice n = do
  row ← attempt (select (λ t. find_order n.out_trade_no t.orders))
  settle_row n row

settle_if_any : Option Notice → Action Reply
settle_if_any none = pure fail
settle_if_any (some n) = settle_notice n

-- `installed` is the outcome of `require_installed`.
unfoldable pub process_notify : (List ℕ → List ℕ) → Bool → Params → Action Reply
unfolding settle_if_any
process_notify md5 installed params = if not installed then pure fail else do
  enabled ← get_setting_bool "epay_enabled" false
  if not enabled then pure fail else do
    expected_pid ← get_setting "epay_pid"
    key ← get_setting "epay_key"
    settle_if_any (verify md5 params (or_empty expected_pid) (or_empty key))

-- `validate_payway`
unfoldable pub validate_payway : String → Option String
validate_payway p =
    if str_eq p "alipay"
    then some "alipay"
    else if str_eq p "wxpay"
    then some "wxpay"
    else if str_eq p "qqpay"
    then some "qqpay"
    else if str_eq p "bank"
    then some "bank"
    else none
