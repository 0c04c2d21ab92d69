-- ===== src/Tests/Orders.antt =====
-- Examples of orders.
use yunova.Base.{
  ℕ, ◌≡◌, refl, false, none, some, List, [], ◌∷◌, String, if◌then◌else◌, arith, Option,
}
use text.Mathlib.Text.{◌==◌ as str_eq}
use yunova.Base.Int.{pos, mul_i64}
use yunova.Base.Text.{codes, parse_i64, str_trim, trim_end_matches, ends_with, comes_before}
use yunova.Db.{Conn, quiet, running}
use yunova.Quota.Accounts.{credit}
use yunova.Quota.Settings.{get_setting, get_setting_bool, get_setting_i64}
use yunova.Payments.{
  Notice, success, settle_notice, find_order, validate_payway, settled_elsewhere, signed, join,
  epay_sign,
}
use yunova.Payments.Create.{
  CreateOrderResp, ordered, new_order, create_order, create_if_valid, create_with, place_within,
  place_if_set, place, answer_created, insert_order, gateway, s, money, show_int, show_text,
  digits_text, random_out_trade_no, order_params, put, coded, query, pay_url, is_missing,
  epay_callback_url, epay_submit_url, product_or_default,
}
use yunova.Payments.Create.Paid.{recharge_row, create_order-settle_notice}
use yunova.Tests.Data.{order, account, first_row, tables}

-- A digest and an encoding for the examples: the first two letters, and what is given.
abbrev digest : List ℕ → List ℕ
digest (a ∷ b ∷ cs) = a ∷ b ∷ []
digest _ = []

abbrev as_given : List ℕ → List ℕ
as_given cs = cs

abbrev configured : String → Option String
configured key =
    if str_eq key "epay_enabled"
    then some "true"
    else if str_eq key "epay_api_url"
    then some "https://pay.example.com/ "
    else if str_eq key "epay_pid"
    then some "1000"
    else if str_eq key "epay_key"
    then some "secret"
    else if str_eq key "epay_notify_url"
    then some "https://a.example.com"
    else if str_eq key "epay_product_name"
    then some "Credit"
    else none

abbrev shop : Conn
shop = record { tables = record (tables order) { settings = configured }; tick = 0 }

abbrev answer : CreateOrderResp
answer = record {
  out_trade_no = "NC17001123456";
  pay_url =
      codes
        "https://pay.example.com/submit.php?money=3.00&name=Credit&notify_url=https://a.example.com/api/payments/epay/notify&out_trade_no=NC17001123456&pid=1000&sign=mo&sign_type=MD5&type=alipay";
  amount_cents = pos 300;
  quota = pos 3_000_000;
  payway = "alipay";
}

shop_answers :
    (create_order digest as_given 1 1700 123_456 " alipay" (pos 3) quiet shop).0
    ≡ some (ordered answer)
unfolding create_order running get_setting_bool get_setting create_if_valid validate_payway str_trim
    create_with get_setting_i64 place_within gateway s place_if_set is_missing epay_submit_url
    mul_i64 comes_before ends_with parse_i64 trim_end_matches answer_created coded digits_text
    epay_callback_url insert_order money new_order order_params pay_url place product_or_default put
    query random_out_trade_no show_int show_text epay_sign find_order join signed
shop_answers = refl

way_valid : validate_payway (str_trim " alipay") ≡ some "alipay"
unfolding validate_payway str_trim
way_valid = refl

abbrev report : Notice
report = record { out_trade_no = "NC17001123456"; money = "3.00"; trade_no = some "G2" }

money_sent : report.money ≡ money (pos 3)
unfolding money show_int show_text digits_text
money_sent = refl

number_unused : settled_elsewhere "G2" "NC17001123456" (order ∷ []) ≡ false
unfolding settled_elsewhere
number_unused = refl

create_order-settle_notice_example :
    let made = create_order digest as_given 1 1700 123_456 " alipay" (pos 3) quiet shop in
    let settled = settle_notice report quiet made.1 in
    let o = new_order 1 "NC17001123456" "alipay" (pos 3) in
    (settled.0 ≡ some success)
    × (settled.1.tables.balances 1 ≡ some (credit (pos 3_000_000) account))
    × (settled.1.tables.ledger ≡ recharge_row 1 (pos 3_000_000) "NC17001123456" ∷ first_row ∷ [])
    × (find_order "NC17001123456" settled.1.tables.orders
        ≡ some (record o { status = "paid"; trade_no = some "G2" }))
create_order-settle_notice_example =
    create_order-settle_notice digest as_given 1 1700 123_456 " alipay" "alipay" 3 answer report
      account shop way_valid (omega arith) shop_answers refl money_sent refl number_unused
