-- ===== src/CliAuth.antt =====
-- src/cli_auth.rs: a command line signs in by a device code, which a browser approves. The clock and
-- the hash are parameters, and so is `before`, the database's order of texts.
pub mod Binding
pub mod Claims
pub mod Codes
pub mod Login
pub mod Once
pub mod Rows
use yunova.Base.{
  ℕ, zero, suc, ◌+◌, ◌*◌, Bool, true, false, not, ◌&&◌, ◌||◌, Option, none, some, List, [], ◌∷◌,
  String, if◌then◌else◌, ◌==◌,
}
use text.Mathlib.Text.{◌==◌ as str_eq}
use yunova.Base.Text.{codes, same, str_trim}
use yunova.Schema.{Tables, User, DeviceCode}
use yunova.Db.{Action, pure, statement, attempt, select, ◌>>=◌, ◌>>◌}
use yunova.AgentToken.{Clock, is_expired, mint, revoke_by_plaintext}
use yunova.CliAuth.Codes.{new_user_code, normalize_user_code, clean_label}

abbrev pub code_ttl_minutes : ℕ
code_ttl_minutes = 10

abbrev pub cli_token_ttl_hours : ℕ
cli_token_ttl_hours = 24 * 30

abbrev pub nanoseconds_per_minute : ℕ
nanoseconds_per_minute = 60_000_000_000

abbrev pub put_codes : List DeviceCode → Tables → Tables
put_codes rs t = record t { device_codes = rs }

-- `WHERE device_hash = ?` and `WHERE user_code = ?`, which are unique.
unfoldable pub find_hash : String → List DeviceCode → Option DeviceCode
find_hash hash [] = none
find_hash hash (r ∷ rs) = if str_eq r.device_hash hash then some r else find_hash hash rs

unfoldable pub find_code : List ℕ → List DeviceCode → Option DeviceCode
find_code code [] = none
find_code code (r ∷ rs) = if same r.user_code code then some r else find_code code rs

abbrev pub is_some : {A : Type 0} → Option A → Bool
is_some none = false
is_some (some a) = true

-- `INSERT INTO cli_device_codes`
unfoldable pub insert_code : DeviceCode → Tables → Option (Unit {0} × Tables)
insert_code r t =
    if is_some (find_code r.user_code t.device_codes)
      || is_some (find_hash r.device_hash t.device_codes)
    then none
    else some (tt, put_codes (r ∷ t.device_codes) t)

-- `UPDATE … SET user_id = ?, approved_at = ? WHERE user_code = ? AND user_id IS NULL AND denied_at
-- IS NULL AND expires_at > ?`: the row afterwards, where it matches.
abbrev pub can_approve : (String → String → Bool) → String → List ℕ → DeviceCode → Bool
can_approve before now code r =
    same r.user_code code
    && not (is_some r.user_id)
    && not (is_some r.denied_at)
    && before now r.expires_at

unfoldable pub set_where :
    (DeviceCode → Bool) → (DeviceCode → DeviceCode) → List DeviceCode → List DeviceCode
set_where p f [] = []
set_where p f (r ∷ rs) = let rest = set_where p f rs in if p r then f r ∷ rest else r ∷ rest

unfoldable pub count_where : (DeviceCode → Bool) → List DeviceCode → ℕ
count_where p [] = 0
count_where p (r ∷ rs) = let rest = count_where p rs in if p r then suc rest else rest

unfoldable pub delete_where : (DeviceCode → Bool) → List DeviceCode → List DeviceCode
delete_where p [] = []
delete_where p (r ∷ rs) = let rest = delete_where p rs in if p r then rest else r ∷ rest

-- `UPDATE … WHERE …`, with the number of rows that match.
unfoldable pub update_codes :
    (DeviceCode → Bool) → (DeviceCode → DeviceCode) → Tables → Option (ℕ × Tables)
update_codes p f t = some (count_where p t.device_codes, put_codes (set_where p f t.device_codes) t)

unfoldable pub or_zero : Option ℕ → ℕ
or_zero none = 0
or_zero (some n) = n

-- `.ok().flatten()`
abbrev pub flatten : {A : Type 0} → Option (Option A) → Option A
flatten none = none
flatten (some o) = o

-- The answers of `start`, `poll`, `describe` and `approve`.
pub data Started : Type 0 where
  started : String → List ℕ → Started
  too_many_requests not_created : Started

pub data Polled : Type 0 where
  expired_token access_denied authorization_pending too_many_polls not_minted : Polled
  delivered : String → Option String → Polled

pub data Described : Type 0 where
  not_found gone : Described
  shown : DeviceCode → Described

pub data Approved : Type 0 where
  no_content bad_request : Approved

pub record StartReq : Type 0 where
  pub client_name : Option (List ℕ)
  pub hostname : Option (List ℕ)
  pub platform : Option (List ℕ)

pub data Request : Type 0 where
  starts : Bool → ℕ → String → (ℕ → ℕ → ℕ) → StartReq → ℕ → ℕ → Request
  polls : Bool → String → ℕ → ℕ → String → ℕ → ℕ → Request
  describes : List ℕ → ℕ → Request
  approves : ℕ → List ℕ → ℕ → Request
  denies : List ℕ → ℕ → Request

unfoldable pub find_username : ℕ → List User → Option String
find_username uid [] = none
find_username uid (u ∷ us) = if u.id == uid then some u.username else find_username uid us

unfoldable pub is_delivered : Option Polled → Bool
is_delivered (some (delivered token name)) = true
is_delivered _ = false

module _ (clock : Clock) where
  unfoldable pub prune_expired : (String → String → Bool) → ℕ → Action (Unit {0})
  prune_expired before now = do
    attempt (
        statement (λ (t : Tables). some (
          tt,
          put_codes (delete_where (λ r. before r.expires_at (clock.to_rfc3339 now)) t.device_codes)
              t,
        )))
    pure tt

  -- The row of a login, but for its `user_code`.
  unfoldable pub new_row : ℕ → String → StartReq → ℕ → List ℕ → DeviceCode
  new_row id device_code req now user_code = record {
    id = id;
    user_id = none;
    user_code = user_code;
    device_hash = clock.token_hash device_code;
    client_name = clean_label req.client_name "命令行工具" 60;
    hostname = clean_label req.hostname "未知设备" 60;
    platform = clean_label req.platform "unknown" 32;
    expires_at = clock.to_rfc3339 (now + code_ttl_minutes * nanoseconds_per_minute);
    approved_at = none;
    denied_at = none;
    consumed_at = none;
    token_hash = none;
  }

  -- The loop over `m` attempts, the `k`-th of them with the `k`-th random draw.
  unfoldable pub allocate : (List ℕ → DeviceCode) → (ℕ → ℕ → ℕ) → String → ℕ → ℕ → Action Started
  allocate row draw device_code k zero = pure not_created
  allocate row draw device_code k (suc m) = do
    let code = new_user_code (draw k)
    done ← attempt (statement (insert_code (row code)))
    elim done [
      | some _ ↦ pure (started device_code code)
      | none ↦ allocate row draw device_code (suc k) m
    ]

  -- `allowed` is the answer of the limiter, `device_code` that of `auth::generate_token`, and `now`
  -- and `later` are the times at which the clock is read.
  unfoldable pub start :
      (String → String → Bool) → Bool → ℕ → String → (ℕ → ℕ → ℕ) → StartReq → ℕ → ℕ → Action Started
  start before allowed id device_code draw req now later =
      if not allowed then pure too_many_requests else do
        prune_expired before now
        allocate (new_row id device_code req later) draw device_code 0 8

  -- The claim: `WHERE id = ? AND consumed_at IS NULL`.
  unfoldable pub claim_code : ℕ → String → ℕ → Tables → Option (ℕ × Tables)
  claim_code id token now =
      update_codes (λ r. r.id == id && not (is_some r.consumed_at))
        (λ r. record r {
          consumed_at = some (clock.to_rfc3339 now);
          token_hash = some (clock.token_hash token);
        })

  unfoldable pub deliver : ℕ → String → ℕ → Action Polled
  deliver uid token claimed =
      if claimed == 0 then (do revoke_by_plaintext clock token; pure expired_token) else do
        name ← attempt (select (λ t. find_username uid t.users))
        pure (delivered token (flatten name))

  unfoldable pub claim : ℕ → ℕ → ℕ → Option String → Action Polled
  claim id uid now none = pure not_minted
  claim id uid now (some token) = do
    claimed ← attempt (statement (claim_code id token now))
    deliver uid token (or_zero claimed)

  -- What a poll mints with: the id of the new row of `agent_tokens`, the random text, and the times.
  unfoldable pub collect : ℕ → ℕ → ℕ → String → ℕ → ℕ → Action Polled
  collect id uid token_id random now later = do
    token ← attempt (mint clock token_id random uid (codes "CLI 登录") (some cli_token_ttl_hours) now)
    claim id uid later token

  unfoldable pub answer_poll : ℕ → ℕ → String → ℕ → ℕ → Option DeviceCode → Action Polled
  answer_poll at token_id random now later none = pure expired_token
  answer_poll at token_id random now later (some r) =
      if is_some r.denied_at
      then pure access_denied
      else if is_expired clock r.expires_at at
      then pure expired_token
      else if is_some r.consumed_at
      then pure expired_token
      else if not (is_some r.approved_at)
      then pure authorization_pending
      else elim r.user_id [
        | none ↦ pure authorization_pending
        | some uid ↦ collect r.id uid token_id random now later
      ]

  unfoldable pub poll : Bool → String → ℕ → ℕ → String → ℕ → ℕ → Action Polled
  poll allowed device_code at token_id random now later =
      if not allowed then pure too_many_polls else do
        row ←
            attempt
              (select (λ t. find_hash (clock.token_hash (str_trim device_code)) t.device_codes))
        answer_poll at token_id random now later (flatten row)

  unfoldable pub describe_row : ℕ → Option DeviceCode → Described
  describe_row now none = not_found
  describe_row now (some r) = if is_expired clock r.expires_at now then gone else shown r

  unfoldable pub describe : List ℕ → ℕ → Action Described
  describe user_code now = do
    row ← attempt (select (λ t. find_code (normalize_user_code user_code) t.device_codes))
    pure (describe_row now (flatten row))

  owned_by : ℕ → Option DeviceCode → Approved
  owned_by uid none = bad_request
  owned_by uid (some r) = elim r.user_id [
    | none ↦ bad_request
    | some owner ↦ if owner == uid then no_content else bad_request
  ]

  unfoldable pub answer_approve : ℕ → List ℕ → ℕ → Action Approved
  unfolding owned_by
  answer_approve uid code affected = if not (affected == 0) then pure no_content else do
    row ← attempt (select (λ t. find_code code t.device_codes))
    pure (owned_by uid (flatten row))

  unfoldable pub approve : (String → String → Bool) → ℕ → List ℕ → ℕ → Action Approved
  approve before uid user_code now = do
    let code = normalize_user_code user_code
    let at = clock.to_rfc3339 now
    affected ← attempt (
        statement (
          update_codes (can_approve before at code)
            (λ r. record r { user_id = some uid; approved_at = some at })))
    answer_approve uid code (or_zero affected)

  unfoldable pub deny : List ℕ → ℕ → Action (Unit {0})
  deny user_code now = do
    let code = normalize_user_code user_code
    attempt (
        statement (
          update_codes (λ r. same r.user_code code && not (is_some r.approved_at))
            (λ r. record r { denied_at = some (clock.to_rfc3339 now) })))
    pure tt

  -- The requests that the routers pass on; the answers go to the client.
  unfoldable pub handle : (String → String → Bool) → Request → Action (Unit {0})
  handle before (starts allowed id device_code draw req now later) = do
    start before allowed id device_code draw req now later
    pure tt
  handle before (polls allowed device_code at token_id random now later) = do
    poll allowed device_code at token_id random now later
    pure tt
  handle before (describes user_code now) = do describe user_code now; pure tt
  handle before (approves uid user_code now) = do approve before uid user_code now; pure tt
  handle before (denies user_code now) = deny user_code now

  unfoldable pub handle_all : (String → String → Bool) → List Request → Action (Unit {0})
  handle_all before [] = pure tt
  handle_all before (q ∷ qs) = do attempt (handle before q); handle_all before qs
