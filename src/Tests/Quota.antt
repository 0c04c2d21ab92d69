-- ===== src/Tests/Quota.antt =====
-- Examples of prices and accounts.
use yunova.Base.{◌≡◌, refl, some, arith, inl, inr, Bool-cases, ◌==◌}
use yunova.Base.Int.{pos, ◌+ℤ◌}
use yunova.Db.{quiet}
use yunova.Quota.Pricing.Chat.{Tariff, Tokens, InRange, charge, charge_exact}
use yunova.Quota.Accounts.{try_deduct, settle, grant, set_balance}
use yunova.Quota.Accounts.Safety.{IsSolvent, Holds, try_deduct-IsSolvent, others_untouched}
use yunova.Quota.Accounts.Quiet.{Reconciles}
use yunova.Quota.Accounts.Reconcile.{moves-Reconciles}
use yunova.Tests.Data.{chat, order, account, tables, conn, shaky}

-- 7.2 yuan for a dollar, a markup of 150%, 3 and 15 dollars for a million tokens.
abbrev tariff : Tariff
tariff = record {
  cny = 7_200_000;
  markup = 150;
  input_price = 3_000_000;
  output_price = 15_000_000;
  cached_price = some 300_000;
}

abbrev tokens : Tokens
tokens = record { input = 1_000; output = 200; cached = 400 }

tokens-InRange : InRange tariff tokens
tokens-InRange = record {
  subset = omega arith;
  counts = omega arith;
  weights = omega arith;
  scaled = omega arith;
}

charge_exact_example : charge tariff tokens ≡ pos 53_136
charge_exact_example = charge_exact tariff tokens tokens-InRange (omega arith) (omega arith)

tables-IsSolvent : IsSolvent (tables order)
tables-IsSolvent u a e = ground arith

tables-Reconciles : Reconciles (tables order)
unfolding ◌+ℤ◌
tables-Reconciles v = elim (Bool-cases (v == 1)) [ inl h ↦ rw h refl | inr h ↦ rw h refl ]

try_deduct-IsSolvent_example :
    IsSolvent (try_deduct 1 (pos 300) "chat" chat shaky (conn order)).1.tables
try_deduct-IsSolvent_example =
    try_deduct-IsSolvent shaky (λ n t h. h) 1 (pos 300) "chat" chat (conn order) tables-IsSolvent

others_untouched_example :
    Holds 1 (some account) (try_deduct 2 (pos 9) "chat" chat shaky (conn order)).1.tables
    × Holds 1 (some account) (settle 2 (pos 9) "chat" chat shaky (conn order)).1.tables
    × Holds 1 (some account) (grant 2 (pos 9) "chat" chat shaky (conn order)).1.tables
    × Holds 1 (some account) (set_balance 2 (pos 9) "chat" chat shaky (conn order)).1.tables
others_untouched_example =
    others_untouched shaky 2 1 (some account) (λ n t h. h) (omega arith) (pos 9) "chat" chat
      (conn order) refl

moves-Reconciles_example :
    Reconciles (try_deduct 1 (pos 300) "chat" chat quiet (conn order)).1.tables
    × Reconciles (settle 1 (pos 300) "chat" chat quiet (conn order)).1.tables
    × Reconciles (grant 1 (pos 300) "chat" chat quiet (conn order)).1.tables
moves-Reconciles_example = moves-Reconciles 1 (pos 300) "chat" chat (conn order) tables-Reconciles
