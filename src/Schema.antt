-- ===== src/Schema.antt =====
-- The rows of the tables that the modelled code reads and writes (migrations/sqlite), and the
-- values of src/quota.rs that they hold. Row ids, which the database assigns, are naturals.
use yunova.Base.{ℕ, Bool, String, Option, List}
use yunova.Base.Int.{ℤ, pos}

-- `TokenUsage`
pub record TokenUsage : Type 0 where
  pub input : ℤ
  pub output : ℤ
  pub cached_input : ℤ

abbrev pub no_usage : TokenUsage
no_usage = record { input = pos 0; output = pos 0; cached_input = pos 0 }

-- `LedgerMeta`
pub record LedgerMeta : Type 0 where
  pub kind : String
  pub protocol : Option String
  pub model : Option String
  pub usage : TokenUsage

-- a row of `balance_ledger`
pub record LedgerRow : Type 0 where
  pub user_id : ℕ
  pub delta : ℤ
  pub reason : String
  pub meta : LedgerMeta

-- a row of `user_balances`
pub record Account : Type 0 where
  pub balance : ℤ
  pub lifetime_used : ℤ

-- a row of `payment_orders`
pub record Order : Type 0 where
  pub user_id : ℕ
  pub out_trade_no : String
  pub payway : String
  pub amount_cents : ℤ
  pub quota : ℤ
  pub status : String
  pub trade_no : Option String

-- the columns of `users` that are used
pub record User : Type 0 where
  pub id : ℕ
  pub username : String
  pub password_hash : String
  pub invite_code : Option (List ℕ)
  pub invited_by : Option ℕ

-- a row of `agent_tokens`
pub record AgentToken : Type 0 where
  pub id : ℕ
  pub user_id : ℕ
  pub name : List ℕ
  pub token_hash : String
  pub prefix : List ℕ
  pub expires_at : Option String
  pub last_used_at : Option String
  pub revoked : ℕ

-- a row of `cli_device_codes`, without `created_at`
pub record DeviceCode : Type 0 where
  pub id : ℕ
  pub user_id : Option ℕ
  pub user_code : List ℕ
  pub device_hash : String
  pub client_name : List ℕ
  pub hostname : List ℕ
  pub platform : List ℕ
  pub expires_at : String
  pub approved_at : Option String
  pub denied_at : Option String
  pub consumed_at : Option String
  pub token_hash : Option String

-- a row of `agent_devices`, without `kind` and `created_at`
pub record Device : Type 0 where
  pub id : ℕ
  pub user_id : ℕ
  pub name : List ℕ
  pub token_hash : String
  pub platform : Option String
  pub fingerprint : Option (List ℕ)
  pub revoked : ℕ
  pub last_seen_at : Option String

-- a row of `sessions`
pub record Session : Type 0 where
  pub token_hash : String
  pub user_id : ℕ
  pub expires_at : String

-- `Channel`, a row of `upstream_channels`
pub record Channel : Type 0 where
  pub id : ℕ
  pub name : String
  pub protocol : String
  pub base_url : String
  pub api_key : String
  pub enabled : Bool
  pub priority : ℤ

-- `ChannelModel`, a row of `channel_models`
pub record ChannelModel : Type 0 where
  pub channel_id : ℕ
  pub model : String
  pub upstream_id : Option String

-- `ModelPrice`, a row of `model_pricing`
pub record ModelPrice : Type 0 where
  pub model : String
  pub kind : String
  pub enabled : Bool
  pub protocol : String
  pub input_price : ℤ
  pub output_price : ℤ
  pub cached_input_price : Option ℤ
  pub per_call_price : ℤ
  pub base_price : ℤ
  pub per_second_price : ℤ
  pub allowed_seconds : Option (List ℤ)
  pub size_rules : Option (List (String × ℤ))

-- `JobRow` of src/videos.rs; the text of an error is kept as code points.
pub record VideoJob : Type 0 where
  pub id : ℕ
  pub user_id : ℕ
  pub token : String
  pub model : String
  pub prompt : String
  pub seconds : ℤ
  pub size : String
  pub input_image_path : Option String
  pub upstream_video_id : Option String
  pub channel_id : Option ℕ
  pub cost_quota : ℤ
  pub status : String
  pub progress : ℤ
  pub video_path : Option String
  pub error : Option (List ℕ)
  pub refunded : Bool
  pub download_retries : ℤ
  pub polling : Bool
  pub last_polled_at : Option String
  pub created_at : String
  pub finished_at : Option String

-- Tables with a primary key that the code looks up are maps; the ledger has its newest row first.
pub record Tables : Type 0 where
  pub settings : String → Option String
  pub balances : ℕ → Option Account
  pub ledger : List LedgerRow
  pub orders : List Order
  pub users : List User
  pub agent_tokens : List AgentToken
  pub sessions : List Session
  pub channels : List Channel
  pub channel_models : List ChannelModel
  pub pricing : String → Option ModelPrice
  pub video_jobs : List VideoJob
  pub device_codes : List DeviceCode
  pub devices : List Device
