-- ===== src/Devices/Handshake.antt =====
-- `attach` of src/agent_device.rs: the first frame of a device's socket. `lower` is the database's way
-- to compare names (`LOWER`, or NOCASE), `verify_password` the check of a password against its hash; the
-- account's name, which an answer repeats, is left out.
pub mod Logout
use yunova.Base.{
  ℕ, Bool, true, false, not, ◌&&◌, Option, none, some, List, [], ◌∷◌, String, if◌then◌else◌,
}
use text.Mathlib.Text.{◌==◌ as str_eq}
use yunova.Base.Text.{str_trim}
use yunova.Schema.{User}
use yunova.Db.{Action, pure, attempt, select, ◌>>=◌}
use yunova.AgentToken.{Clock}
use yunova.Auth
use yunova.Devices.{
  Bound, bound, too_many, bind_failed, clean_name, clean_fingerprint, bind_device, device_for_token,
}

-- The frames that may come first; the others of `FromDevice` are one.
pub data FromDevice : Type 0 where
  hello : String → List ℕ → Option String → FromDevice
  login : String → String → List ℕ → Option String → Option (List ℕ) → FromDevice
  attach_by : String → List ℕ → Option String → Option (List ℕ) → FromDevice
  other : FromDevice

pub record Attached : Type 0 where
  pub device_id : ℕ
  pub user_id : ℕ
  pub issued_token : Option String

-- The answer, with the name and the platform of the machine, or the reason of a refusal.
pub data Handshake : Type 0 where
  attached : Attached → List ℕ → Option String → Handshake
  bad_credential too_often bad_login signed_out bad_first_frame : Handshake
  too_many_devices not_bound : Handshake

-- `unwrap_or_default`
abbrev or_empty : Option String → String
or_empty none = ""
or_empty (some s) = s

abbrev flatten : {A : Type 0} → Option (Option A) → Option A
flatten none = none
flatten (some o) = o

unfoldable pub find_named : (String → String) → String → List User → Option User
find_named lower name [] = none
find_named lower name (u ∷ us) =
    if str_eq (lower u.username) (lower name) then some u else find_named lower name us

unfoldable pub accept_login : (String → String → Bool) → String → Option User → Option ℕ
accept_login verify_password password none = none
accept_login verify_password password (some u) =
    if verify_password password u.password_hash then some u.id else none

unfoldable pub verify_login :
    (String → String) → (String → String → Bool) → String → String → Action (Option ℕ)
verify_login lower verify_password username password = do
  row ← attempt (select (λ t. find_named lower (str_trim username) t.users))
  pure (accept_login verify_password password (flatten row))

unfoldable pub answer_hello : List ℕ → Option String → Option (ℕ × ℕ) → Handshake
answer_hello name platform none = bad_credential
answer_hello name platform (some (device_id, user_id)) =
    attached (record { device_id = device_id; user_id = user_id; issued_token = none }) name
      platform

unfoldable pub answer_bound : ℕ → List ℕ → Option String → Bound → Handshake
answer_bound uid name platform (bound id token created) =
    attached (record { device_id = id; user_id = uid; issued_token = some token }) name platform
answer_bound uid name platform too_many = too_many_devices
answer_bound uid name platform bind_failed = not_bound

-- What a binding needs besides the frame: the id of a new row, the random text and the database's time.
pub record Fresh : Type 0 where
  pub id : ℕ
  pub random : String
  pub now_expr : String

module _ (clock : Clock) (lower : String → String) (verify_password : String → String → Bool) where
  -- The machine of a user who proved to be one, or the refusal.
  unfoldable pub bind_for :
      Handshake → Fresh → List ℕ → Option String → Option (List ℕ) → Option ℕ → Action Handshake
  bind_for refusal fresh name platform fingerprint none = pure refusal
  bind_for refusal fresh name platform fingerprint (some uid) = do
    answer ←
        bind_device clock.token_hash fresh.id fresh.random uid (clean_name (some name)) platform
          (clean_fingerprint fingerprint) fresh.now_expr
    pure (answer_bound uid (clean_name (some name)) platform answer)

  -- `allowed` is the answer of the limiter, `now` the clock's time.
  unfoldable pub attach : Bool → Fresh → ℕ → Option String → FromDevice → Action Handshake
  attach allowed fresh now query_token (hello token name platform) = do
    let sent = if str_eq token "" then or_empty query_token else token
    row ← device_for_token clock.token_hash sent
    pure (answer_hello name platform row)
  attach allowed fresh now query_token (login username password name platform fingerprint) =
      if not allowed then pure too_often else do
        uid ← verify_login lower verify_password username password
        bind_for bad_login fresh name platform fingerprint uid
  attach allowed fresh now query_token (attach_by session name platform fingerprint) =
      if not allowed then pure too_often else do
        uid ← Auth.user_for_token clock now (str_trim session)
        bind_for signed_out fresh name platform fingerprint uid
  attach allowed fresh now query_token other = pure bad_first_frame
