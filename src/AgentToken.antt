-- ===== src/AgentToken.antt =====
-- src/agent_token.rs: tokens that let an agent spend its user's quota.
pub mod Headers
pub mod Laws
pub mod Writes
use yunova.Base.{
  ℕ, zero, suc, ◌+◌, ◌*◌, Bool, true, false, not, ◌&&◌, ◌||◌, Option, none, some, List, [], ◌∷◌,
  String, if◌then◌else◌, ◌==◌, leb, length,
}
use Prim.Native.String
use text.Mathlib.Text.{◌==◌ as str_eq}
use yunova.Base.Text.{codes, trim, take, strip_prefix}
use yunova.Schema.{Tables, AgentToken}
use yunova.Db.{Action, pure, statement, attempt, select, ◌>>=◌, ◌>>◌}

abbrev pub token_prefix : String
token_prefix = "yna_"

abbrev pub display_prefix_len : ℕ
display_prefix_len = 4 + 8

abbrev pub max_tokens_per_user : ℕ
max_tokens_per_user = 20

-- What the code calls outside this repository, and `token_hash` of src/auth.rs, a SHA-256.
-- Instants and durations are in nanoseconds.
pub record Clock : Type 0 where
  pub token_hash : String → String
  pub to_rfc3339 : ℕ → String
  pub parse_from_rfc3339 : String → Option ℕ

unfoldable pub is_agent_token : String → Bool
is_agent_token token = elim (strip_prefix (codes token_prefix) (codes token)) [
  | none ↦ false
  | some rest ↦ true
]

-- `random` is the answer of `auth::generate_token`.
unfoldable pub new_token : String → String
new_token random = String.◌++◌ token_prefix random

-- `SELECT … WHERE token_hash = ?`, which is unique.
unfoldable pub find_token : String → List AgentToken → Option AgentToken
find_token hash [] = none
find_token hash (r ∷ rs) = if str_eq r.token_hash hash then some r else find_token hash rs

-- `UPDATE agent_tokens SET last_used_at = ? WHERE id = ?`
unfoldable pub touch : ℕ → String → List AgentToken → List AgentToken
touch id at [] = []
touch id at (r ∷ rs) =
    (if r.id == id then record r { last_used_at = some at } else r) ∷ touch id at rs

-- `UPDATE agent_tokens SET revoked = 1 WHERE token_hash = ?`
unfoldable pub revoke_hash : String → List AgentToken → List AgentToken
revoke_hash hash [] = []
revoke_hash hash (r ∷ rs) =
    (if str_eq r.token_hash hash then record r { revoked = 1 } else r) ∷ revoke_hash hash rs

-- `UPDATE agent_tokens SET revoked = 1 WHERE id = ? AND user_id = ?`
unfoldable pub revoke_id : ℕ → ℕ → List AgentToken → List AgentToken
revoke_id id uid [] = []
revoke_id id uid (r ∷ rs) =
    (if r.id == id && r.user_id == uid then record r { revoked = 1 } else r) ∷ revoke_id id uid rs

unfoldable pub count_id : ℕ → ℕ → List AgentToken → ℕ
count_id id uid [] = 0
count_id id uid (r ∷ rs) =
    let rest = count_id id uid rs in if r.id == id && r.user_id == uid then suc rest else rest

-- `SELECT COUNT(*) … WHERE user_id = ? AND revoked = 0`
unfoldable pub count_live : ℕ → List AgentToken → ℕ
count_live uid [] = 0
count_live uid (r ∷ rs) =
    let rest = count_live uid rs in if r.user_id == uid && r.revoked == 0 then suc rest else rest

abbrev or_zero : Option ℕ → ℕ
or_zero none = 0
or_zero (some n) = n

abbrev pub put_tokens : List AgentToken → Tables → Tables
put_tokens rs t = record t { agent_tokens = rs }

-- The answers of `create_token` and of `revoke_token`.
pub data Created : Type 0 where
  created : String → List ℕ → List ℕ → Created
  too_many not_created : Created

pub data Revoked : Type 0 where
  no_content not_found not_revoked : Revoked

unfoldable pub display_name : Option (List ℕ) → List ℕ
display_name none = take 60 (codes "Agent")
display_name (some raw) = take 60 (if length (trim raw) == 0 then codes "Agent" else trim raw)

module _ (clock : Clock) where
  -- An instant that cannot be read has passed.
  unfoldable pub is_expired : String → ℕ → Bool
  is_expired raw now = elim (clock.parse_from_rfc3339 raw) [ none ↦ true | some at ↦ leb at now ]

  unfoldable pub has_expired : Option String → ℕ → Bool
  has_expired none now = false
  has_expired (some raw) now = is_expired raw now

  -- `user_for_token` from the row on; `later` is the time of the second look at the clock.
  unfoldable pub accept_row : ℕ → ℕ → Option (Option AgentToken) → Action (Option ℕ)
  unfolding has_expired
  accept_row now later none = pure none
  accept_row now later (some none) = pure none
  accept_row now later (some (some r)) =
      if not (r.revoked == 0) || has_expired r.expires_at now then pure none else do
        attempt (
            statement (λ (t : Tables).
              some (tt, put_tokens (touch r.id (clock.to_rfc3339 later) t.agent_tokens) t)))
        pure (some r.user_id)

  unfoldable pub user_for_token : ℕ → ℕ → String → Action (Option ℕ)
  user_for_token now later token = if not (is_agent_token token) then pure none else do
    row ← attempt (select (λ t. find_token (clock.token_hash token) t.agent_tokens))
    accept_row now later row

  -- The row that `mint` inserts, under an id that the database assigns.
  unfoldable pub minted : ℕ → ℕ → List ℕ → String → Option ℕ → ℕ → AgentToken
  minted id uid name token ttl_hours now = record {
    id = id;
    user_id = uid;
    name = name;
    token_hash = clock.token_hash token;
    prefix = take display_prefix_len (codes token);
    expires_at = elim ttl_hours [
      | none ↦ none
      | some h ↦ some (clock.to_rfc3339 (now + h * 3_600_000_000_000))
    ];
    last_used_at = none;
    revoked = 0;
  }

  -- `INSERT INTO agent_tokens`, where `token_hash` is unique.
  unfoldable pub insert_token : AgentToken → Tables → Option (Unit {0} × Tables)
  insert_token r t = elim (find_token r.token_hash t.agent_tokens) [
    | some old ↦ none
    | none ↦ some (tt, put_tokens (r ∷ t.agent_tokens) t)
  ]

  unfoldable pub mint : ℕ → String → ℕ → List ℕ → Option ℕ → ℕ → Action String
  mint id random uid name ttl_hours now = do
    let token = new_token random
    statement (insert_token (minted id uid name token ttl_hours now))
    pure token

  unfoldable pub revoke_by_plaintext : String → Action (Unit {0})
  revoke_by_plaintext token = do
    attempt (
        statement (λ (t : Tables).
          some (tt, put_tokens (revoke_hash (clock.token_hash token) t.agent_tokens) t)))
    pure tt

  answer_created : List ℕ → Option String → Created
  answer_created name none = not_created
  answer_created name (some token) = created token name (take display_prefix_len (codes token))

  unfoldable pub create_token : ℕ → String → ℕ → Option (List ℕ) → ℕ → Action Created
  unfolding answer_created
  create_token id random uid req_name now = do
    live ← attempt (select (λ t. count_live uid t.agent_tokens))
    if leb max_tokens_per_user (or_zero live) then pure too_many else do
      token ← attempt (mint id random uid (display_name req_name) none now)
      pure (answer_created (display_name req_name) token)

answer_revoked : Option ℕ → Revoked
answer_revoked none = not_revoked
answer_revoked (some zero) = not_found
answer_revoked (some (suc n)) = no_content

unfoldable pub revoke_token : ℕ → ℕ → Action Revoked
unfolding answer_revoked
revoke_token uid id = do
  rows ← attempt (
      statement (λ (t : Tables).
        some (count_id id uid t.agent_tokens, put_tokens (revoke_id id uid t.agent_tokens) t)))
  pure (answer_revoked rows)
