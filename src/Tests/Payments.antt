-- ===== src/Tests/Payments.antt =====
-- Examples of notifications.
use yunova.Base.{ℕ, ◌≡◌, refl, Bool, true, false, ◌==◌, some, List, [], ◌∷◌}
use yunova.Base.Int.{pos, add_i64, mul_i64}
use yunova.Base.Text.{codes, same, parse_i64, to_ascii_lowercase}
use yunova.Payments.{
  Params, Notice, success, verify, settle_notice, epay_sign, same_ignoring_case, signed, join,
  param, is_pending, process_notify, count_pending, find_order, settled_elsewhere,
}
use yunova.Payments.Money.{reported_cents, split_from, two_places}
use yunova.Payments.Credit.{is_replayed}
use yunova.Payments.Settlement.{IsSettled}
use yunova.Payments.Replay.{IsAuthentic, verify-IsAuthentic, process_notify-replay}
use yunova.Payments.Outcome.{Yields, failing, settle_notice-outcome}
use yunova.Tests.Data.{order, paid_order, account, first_row, tables, conn, shaky}

-- a digest for the examples: the first two letters
abbrev digest : List ℕ → List ℕ
digest (a ∷ b ∷ cs) = a ∷ b ∷ []
digest _ = []

abbrev params : Params
params =
    ("money", "3.00")
    ∷ ("out_trade_no", "R1")
    ∷ ("pid", "1000")
    ∷ ("sign", "MO")
    ∷ ("trade_no", "G1")
    ∷ ("trade_status", "TRADE_SUCCESS")
    ∷ []

abbrev report : Notice
report = record { out_trade_no = "R1"; money = "3.00"; trade_no = some "G1" }

report_verified : verify digest params "1000" "key" ≡ some report
unfolding verify epay_sign same_ignoring_case signed join param same to_ascii_lowercase
report_verified = refl

params_name : param "out_trade_no" params ≡ some "R1"
unfolding param
params_name = refl

paid_order_settled : count_pending "R1" (paid_order ∷ []) ≡ 0
unfolding count_pending is_pending
paid_order_settled = refl

verify-IsAuthentic_example : IsAuthentic digest params "1000" "key" report
verify-IsAuthentic_example = verify-IsAuthentic digest params "1000" "key" report report_verified

process_notify-replay_example :
    IsSettled "R1"
      (tables paid_order).balances
      (first_row ∷ [])
      (process_notify digest true params shaky (conn paid_order)).1.tables
process_notify-replay_example =
    process_notify-replay digest true params "R1" shaky (tables paid_order).balances
      (first_row ∷ [])
      (λ n t h. record { none_pending = h.none_pending; balances = h.balances; ledger = h.ledger })
      params_name (conn paid_order)
      (record { none_pending = paid_order_settled; balances = refl; ledger = refl })

-- The third statement fails: the UPDATE that marks the order paid.
abbrev third : ℕ → Bool
third n = n == 2

order_found : find_order "R1" (order ∷ []) ≡ some order
unfolding find_order
order_found = refl

order_fresh : is_replayed report (order ∷ []) ≡ false
unfolding settled_elsewhere
order_fresh = refl

money_matches : reported_cents (codes "3.00") ≡ pos 300
unfolding reported_cents split_from add_i64 mul_i64 parse_i64 two_places
money_matches = refl

settle_notice-outcome_example :
    Yields (settle_notice report (failing third) (conn order)) (success, tables order)
settle_notice-outcome_example =
    settle_notice-outcome report order account third (conn order) refl order_fresh order_found refl
      money_matches
