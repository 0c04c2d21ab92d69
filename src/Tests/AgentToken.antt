-- ===== src/Tests/AgentToken.antt =====
-- Examples of tokens.
use yunova.Base.{◌≡◌, refl, none, some, [], ◌∷◌}
use yunova.Schema.{AgentToken}
use yunova.Db.{Conn}
use yunova.AgentToken.{Clock, user_for_token, revoke_by_plaintext}
use yunova.AgentToken.Laws.{user_for_token-revoke_by_plaintext}
use yunova.Tests.Data.{order, tables, shaky}

-- A clock that knows one instant, two hours from the start, and a hash that hides nothing.
abbrev clock : Clock
clock = record {
  token_hash = λ s. s;
  to_rfc3339 = λ n. "1970-01-01T02:00:00Z";
  parse_from_rfc3339 = λ s. some 7_200_000_000_000;
}

abbrev token : AgentToken
token = record {
  id = 4;
  user_id = 1;
  name = [];
  token_hash = "yna_7";
  prefix = [];
  expires_at = none;
  last_used_at = none;
  revoked = 0;
}

abbrev conn : Conn
conn = record { tables = record (tables order) { agent_tokens = token ∷ [] }; tick = 0 }

user_for_token-revoke_by_plaintext_example :
    (user_for_token clock 5 6 "yna_7" shaky (revoke_by_plaintext clock "yna_7" shaky conn).1).0
    ≡ some none
user_for_token-revoke_by_plaintext_example =
    user_for_token-revoke_by_plaintext clock 5 6 "yna_7" shaky (λ n t h. h) conn refl
