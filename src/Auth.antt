-- ===== src/Auth.antt =====
-- The sessions of users in src/auth.rs. The hash and the clock are parameters, as for agent tokens;
-- the user's name, which `user_for_token` joins to the answer, is left out.
pub mod Logout
use yunova.Base.{
  ℕ, ◌+◌, ◌*◌, Bool, true, false, Option, none, some, List, [], ◌∷◌, String, if◌then◌else◌, ltb,
}
use text.Mathlib.Text.{◌==◌ as str_eq}
use yunova.Schema.{Tables, Session}
use yunova.Db.{Action, pure, statement, attempt, select, ◌>>=◌, ◌>>◌}
use yunova.AgentToken.{Clock}

abbrev pub session_ttl_days : ℕ
session_ttl_days = 30

abbrev pub nanoseconds_per_day : ℕ
nanoseconds_per_day = 86_400_000_000_000

-- `SELECT … FROM sessions … WHERE sessions.token_hash = ?`, which is the primary key.
unfoldable pub find_session : String → List Session → Option Session
find_session hash [] = none
find_session hash (r ∷ rs) = if str_eq r.token_hash hash then some r else find_session hash rs

-- `DELETE FROM sessions WHERE token_hash = ?`
unfoldable pub drop_session : String → List Session → List Session
drop_session hash [] = []
drop_session hash (r ∷ rs) =
    let rest = drop_session hash rs in if str_eq r.token_hash hash then rest else r ∷ rest

abbrev pub put_sessions : List Session → Tables → Tables
put_sessions rs t = record t { sessions = rs }

-- `INSERT INTO sessions`
unfoldable pub insert_session : Session → Tables → Option (Unit {0} × Tables)
insert_session r t = elim (find_session r.token_hash t.sessions) [
  | some old ↦ none
  | none ↦ some (tt, put_sessions (r ∷ t.sessions) t)
]

module _ (clock : Clock) where
  -- `token` is the answer of `generate_token`.
  unfoldable pub create_session : String → ℕ → ℕ → Action (String × ℕ)
  create_session token uid now = do
    let expires = now + session_ttl_days * nanoseconds_per_day
    statement (
        insert_session (record {
          token_hash = clock.token_hash token;
          user_id = uid;
          expires_at = clock.to_rfc3339 expires;
        }))
    pure (token, expires)

  unfoldable pub delete_session : String → Action (Unit {0})
  delete_session token =
      statement (λ t. some (tt, put_sessions (drop_session (clock.token_hash token) t.sessions) t))

  unfoldable pub alive : ℕ → Session → Option ℕ → Option ℕ
  alive now r none = none
  alive now r (some expires) = if ltb expires now then none else some r.user_id

  unfoldable pub accept_session : ℕ → Option (Option Session) → Option ℕ
  accept_session now none = none
  accept_session now (some none) = none
  accept_session now (some (some r)) = alive now r (clock.parse_from_rfc3339 r.expires_at)

  unfoldable pub user_for_token : ℕ → String → Action (Option ℕ)
  user_for_token now token = do
    row ← attempt (select (λ t. find_session (clock.token_hash token) t.sessions))
    pure (accept_session now row)
