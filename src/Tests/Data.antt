-- ===== src/Tests/Data.antt =====
-- Tables, connections and environments for the examples.
use yunova.Base.{none, some, [], ◌∷◌, if◌then◌else◌, ◌==◌}
use yunova.Base.Int.{pos}
use yunova.Schema.{Tables, Account, Order, LedgerMeta, LedgerRow, no_usage}
use yunova.Db.{Env, Conn}

abbrev pub chat : LedgerMeta
chat = record { kind = "chat"; protocol = some "openai"; model = some "gpt"; usage = no_usage }

-- the credit that user 1 opened the account with
abbrev pub first_row : LedgerRow
first_row = record { user_id = 1; delta = pos 500; reason = "signup_grant"; meta = chat }

abbrev pub order : Order
order = record {
  user_id = 1;
  out_trade_no = "R1";
  payway = "alipay";
  amount_cents = pos 300;
  quota = pos 3_000_000;
  status = "pending";
  trade_no = none;
}

abbrev pub paid_order : Order
paid_order = record order { status = "paid"; trade_no = some "G1" }

abbrev pub account : Account
account = record { balance = pos 500; lifetime_used = pos 0 }

-- User 1 has an account, and one order.
abbrev pub tables : Order → Tables
tables o = record {
  settings = λ key. none;
  balances = λ u. if u == 1 then some account else none;
  ledger = first_row ∷ [];
  orders = o ∷ [];
  users = [];
  agent_tokens = [];
  sessions = [];
  channels = [];
  channel_models = [];
  pricing = λ model. none;
  video_jobs = [];
  device_codes = [];
  devices = [];
}

abbrev pub conn : Order → Conn
conn o = record { tables = tables o; tick = 0 }

-- The third statement fails, and before each statement someone else writes a setting.
abbrev pub shaky : Env
shaky = record { fails = λ n. n == 2; others = λ n t. record t { settings = λ key. some "1" } }
