-- ===== src/Payments/Create.antt =====
-- `create_order` of src/payments.rs: the order's row, and the signed address that the user is sent
-- to. `encode` is `urlencoding::encode`.
pub mod Paid
pub mod Printed
use yunova.Base.{
  ℕ, zero, suc, ◌/◌, ◌%◌, Bool, true, false, not, ◌||◌, Option, none, some, List, [], ◌∷◌, ◌++◌,
  String, if◌then◌else◌, ltb, any, ◌==◌,
}
use Prim.Native.String
use text.Mathlib.Text.{◌==◌ as str_eq}
use yunova.Base.Int.{ℤ, pos, negsuc, max_ℤ, ltb_ℤ, mul_i64}
use yunova.Base.Text.{codes, str_trim, trim_end_matches, ends_with, comes_before}
use yunova.Schema.{Tables, Order}
use yunova.Db.{Action, pure, statement, attempt, ◌>>=◌}
use yunova.Quota.Pricing.{micro_quota}
use yunova.Quota.Settings.{get_setting, get_setting_bool, get_setting_i64}
use yunova.Payments.{Params, or_empty, find_order, epay_sign, validate_payway}

abbrev pub epay_submit_path : String
epay_submit_path = "/submit.php"

abbrev pub epay_notify_path : String
epay_notify_path = "/api/payments/epay/notify"

abbrev pub epay_return_path : String
epay_return_path = "/api/payments/epay/return"

-- The digits of a number, with fuel for each.
abbrev pub digit_text : ℕ → String
digit_text n =
    if n == 0
    then "0"
    else if n == 1
    then "1"
    else if n == 2
    then "2"
    else if n == 3
    then "3"
    else if n == 4
    then "4"
    else if n == 5
    then "5"
    else if n == 6
    then "6"
    else if n == 7
    then "7"
    else if n == 8
    then "8"
    else "9"

unfoldable pub digits_text : ℕ → ℕ → String
digits_text zero n = ""
digits_text (suc fuel) n =
    let more = String.◌++◌ (digits_text fuel (n / 10)) (digit_text (n % 10)) in
    if ltb n 10 then digit_text n else more

unfoldable pub show_text : ℕ → String
show_text n = digits_text (suc n) n

unfoldable pub show_int : ℤ → String
show_int (pos n) = show_text n
show_int (negsuc n) = String.◌++◌ "-" (show_text (suc n))

-- `ts` is the clock's time in milliseconds, and `r` the random number.
unfoldable pub random_out_trade_no : ℕ → ℕ → ℕ → String
random_out_trade_no ts user_id r =
    String.◌++◌ "NC" (String.◌++◌ (show_text ts) (String.◌++◌ (show_text user_id) (show_text r)))

unfoldable pub epay_callback_url : String → String → String
epay_callback_url v path =
    let base = trim_end_matches b'/' (str_trim v) in
    if str_eq base "" || ends_with path base then base else String.◌++◌ base path

unfoldable pub epay_submit_url : String → String
epay_submit_url v = epay_callback_url v epay_submit_path

-- `BTreeMap::insert`
unfoldable pub put : {A : Type 0} → String → A → List (String × A) → List (String × A)
put k v [] = (k, v) ∷ []
put k v ((j, w) ∷ ps) =
    let rest = put k v ps in
    if str_eq j k
    then (k, v) ∷ ps
    else if comes_before k j
    then (k, v) ∷ (j, w) ∷ ps
    else (j, w) ∷ rest

unfoldable pub coded : Params → List (String × List ℕ)
coded [] = []
coded ((k, v) ∷ ps) = (k, codes v) ∷ coded ps

-- What the order is signed with, and sent to the gateway with.
pub record Gateway : Type 0 where
  pub api_url : String
  pub pid : String
  pub key : String
  pub notify_url : String
  pub return_url : String
  pub product_name : String

unfoldable pub product_or_default : String → String
product_or_default n = if str_eq n "" then "Yunova 额度充值" else n

unfoldable pub is_missing : Gateway → Bool
is_missing g = str_eq g.api_url "" || str_eq g.pid "" || str_eq g.key "" || str_eq g.notify_url ""

-- `s`: a setting, or the empty text.
unfoldable pub s : String → Action String
s key = do v ← get_setting key; pure (or_empty v)

unfoldable pub gateway : Action Gateway
gateway = do
  api_url ← s "epay_api_url"
  pid ← s "epay_pid"
  key ← s "epay_key"
  notify_url ← s "epay_notify_url"
  return_url ← s "epay_return_url"
  product_name ← s "epay_product_name"
  pure (record {
    api_url = epay_submit_url api_url;
    pid = pid;
    key = key;
    notify_url = epay_callback_url notify_url epay_notify_path;
    return_url = epay_callback_url return_url epay_return_path;
    product_name = product_or_default product_name;
  })

-- `format!("{}.00", yuan)`
unfoldable pub money : ℤ → String
money yuan = String.◌++◌ (show_int yuan) ".00"

put_if_any : String → String → Params → Params
put_if_any k v ps = if str_eq v "" then ps else put k v ps

unfoldable pub order_params : Gateway → String → String → ℤ → Params
unfolding put_if_any
order_params g number payway yuan = put "money" (money yuan) (
    put "name" g.product_name (
      put_if_any "return_url" g.return_url (
        put "notify_url" g.notify_url
          (put "out_trade_no" number (put "type" payway (put "pid" g.pid []))))))

unfoldable pub query : (List ℕ → List ℕ) → List (String × List ℕ) → List ℕ
query encode [] = []
query encode ((k, v) ∷ []) = encode (codes k) ++ b'=' ∷ encode v
query encode ((k, v) ∷ p ∷ ps) =
    encode (codes k) ++ b'=' ∷ (encode v ++ b'&' ∷ query encode (p ∷ ps))

unfoldable pub pay_url : (List ℕ → List ℕ) → (List ℕ → List ℕ) → Gateway → Params → List ℕ
pay_url md5 encode g params =
    let url = codes (trim_end_matches b'/' g.api_url) in
    let pairs =
      put "sign_type" (codes "MD5") (put "sign" (epay_sign md5 params g.key) (coded params)) in
    url ++ (if any (λ c. c == b'?') url then b'&' else b'?') ∷ query encode pairs

pub record CreateOrderResp : Type 0 where
  pub out_trade_no : String
  pub pay_url : List ℕ
  pub amount_cents : ℤ
  pub quota : ℤ
  pub payway : String

pub data Created : Type 0 where
  not_enabled bad_payway not_configured not_stored : Created
  bad_amount : ℤ → ℤ → Created
  ordered : CreateOrderResp → Created

-- The new row.
unfoldable pub new_order : ℕ → String → String → ℤ → Order
new_order user_id number payway yuan = record {
  user_id = user_id;
  out_trade_no = number;
  payway = payway;
  amount_cents = mul_i64 yuan (pos 100);
  quota = mul_i64 yuan (pos micro_quota);
  status = "pending";
  trade_no = none;
}

-- `INSERT INTO payment_orders`: the number is unique.
unfoldable pub insert_order : Order → Tables → Option (Unit {0} × Tables)
insert_order o t = elim (find_order o.out_trade_no t.orders) [
  | some other ↦ none
  | none ↦ some (tt, record t { orders = o ∷ t.orders })
]

unfoldable pub answer_created :
    (List ℕ → List ℕ) → (List ℕ → List ℕ) → Gateway → Order → ℤ → Option (Unit {0}) → Created
answer_created md5 encode g o yuan none = not_stored
answer_created md5 encode g o yuan (some _) = ordered (record {
  out_trade_no = o.out_trade_no;
  pay_url = pay_url md5 encode g (order_params g o.out_trade_no o.payway yuan);
  amount_cents = o.amount_cents;
  quota = o.quota;
  payway = o.payway;
})

-- The order is stored, and the address made.
unfoldable pub place : (List ℕ → List ℕ) → (List ℕ → List ℕ) → Gateway → Order → ℤ → Action Created
place md5 encode g o yuan = do
  ins ← attempt (statement (insert_order o))
  pure (answer_created md5 encode g o yuan ins)

unfoldable pub place_if_set :
    (List ℕ → List ℕ) → (List ℕ → List ℕ) → Order → ℤ → Gateway → Action Created
place_if_set md5 encode o yuan g =
    if is_missing g then pure not_configured else place md5 encode g o yuan

unfoldable pub place_within :
    (List ℕ → List ℕ) → (List ℕ → List ℕ) → Order → ℤ → ℤ → ℤ → Action Created
place_within md5 encode o yuan min_yuan max_yuan =
    if ltb_ℤ yuan min_yuan || ltb_ℤ max_yuan yuan
    then pure (bad_amount min_yuan max_yuan)
    else gateway >>= place_if_set md5 encode o yuan

-- `create_order` after the method of payment is known.
unfoldable pub create_with :
    (List ℕ → List ℕ) → (List ℕ → List ℕ) → ℕ → ℕ → ℕ → ℤ → String → Action Created
create_with md5 encode user_id ts r yuan payway = do
  least ← get_setting_i64 "epay_min_yuan" (pos 1)
  let min_yuan = max_ℤ least (pos 1)
  most ← get_setting_i64 "epay_max_yuan" (pos 5000)
  let order = new_order user_id (random_out_trade_no ts user_id r) payway yuan
  place_within md5 encode order yuan min_yuan (max_ℤ most min_yuan)

unfoldable pub create_if_valid :
    (List ℕ → List ℕ) → (List ℕ → List ℕ) → ℕ → ℕ → ℕ → ℤ → Option String → Action Created
create_if_valid md5 encode user_id ts r yuan none = pure bad_payway
create_if_valid md5 encode user_id ts r yuan (some way) =
    create_with md5 encode user_id ts r yuan way

unfoldable pub create_order :
    (List ℕ → List ℕ) → (List ℕ → List ℕ) → ℕ → ℕ → ℕ → String → ℤ → Action Created
create_order md5 encode user_id ts r payway yuan = do
  enabled ← get_setting_bool "epay_enabled" false
  if not enabled
      then pure not_enabled
      else create_if_valid md5 encode user_id ts r yuan (validate_payway (str_trim payway))
