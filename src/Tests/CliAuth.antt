-- ===== src/Tests/CliAuth.antt =====
-- A login of a command line, by example.
use yunova.Base.{
  ◌≡◌, refl, ◌&&◌, Bool, false, none, some, List, [], ◌∷◌, if◌then◌else◌, ◌==◌, arith, all,
}
use text.Mathlib.Text.{◌==◌ as str_eq}
use yunova.Base.Text.{codes, str_trim}
use yunova.Schema.{DeviceCode}
use yunova.Db.{Conn, quiet}
use yunova.AgentToken
use yunova.AgentToken.{Clock, find_token, new_token, is_expired}
use yunova.CliAuth.Codes.{new_user_code, char_at, half}
use yunova.CliAuth.Codes.Spelling.{Spells, ended, sign, letter, letters}
use yunova.CliAuth.{
  StartReq, Request, starts, approves, polls, handle_all, start, approve, poll, started, no_content,
  delivered, is_delivered, find_code, find_hash, count_where, new_row, find_username,
}
use yunova.CliAuth.Claims.{IsOwn}
use yunova.CliAuth.Once.{poll_once}
use yunova.CliAuth.Binding.{IsBound, is_fresh, handle_all-IsBound}
use yunova.CliAuth.Login.{IsTimely, login_delivers}
use yunova.Tests.Data.{order, tables, shaky}

-- The clock writes two instants: the end of a login that starts at 0, and that of its token.
abbrev clock : Clock
clock = record {
  token_hash = λ s. s;
  to_rfc3339 = λ n. if n == 600_000_000_000 then "00:10" else "30 days";
  parse_from_rfc3339 =
      λ s. if str_eq s "00:10" then some 600_000_000_000 else some 2_592_000_000_000_002;
}

abbrev conn : Conn
conn = record { tables = tables order; tick = 0 }

abbrev request : StartReq
request = record { client_name = some (codes "pi"); hostname = none; platform = none }

-- The code is ACDE-FGHJ.
spelled : Spells (codes "acDE fghj") (letters (λ n. n))
unfolding half char_at
spelled = letter refl refl (
    letter refl refl (
      letter refl refl (
        letter refl refl (
          sign refl
            (letter refl refl (letter refl refl (letter refl refl (letter refl refl ended))))))))

timely : IsTimely clock (λ a b. Bool.true) 7 1 2 "d" "r" (λ k n. n) request 0 0 0 1 2 4
unfolding is_expired new_row
timely = record { before_expiry = refl; code_alive = refl; token_alive = (refl, omega arith) }

no_spaces : str_trim "d" ≡ "d"
unfolding str_trim
no_spaces = refl

code_unused : find_code (new_user_code (λ n. n)) [] ≡ none
unfolding find_code
code_unused = refl

hash_unused : find_hash "d" [] ≡ none
unfolding find_hash
hash_unused = refl

token_unused : find_token (new_token "r") [] ≡ none
unfolding find_token
token_unused = refl

login_delivers_example :
    let begun = start clock (λ a b. Bool.true) Bool.true 7 "d" (λ k n. n) request 0 0 quiet conn in
    let bound = approve clock (λ a b. Bool.true) 1 (codes "acDE fghj") 0 quiet begun.1 in
    let polled = poll clock Bool.true "d" 1 2 "r" 2 3 quiet bound.1 in
    (begun.0 ≡ some (started "d" (new_user_code (λ n. n))))
    × (bound.0 ≡ some no_content)
    × (polled.0 ≡ some (delivered (new_token "r") (find_username 1 [])))
    × ((AgentToken.user_for_token clock 4 5 (new_token "r") quiet polled.1).0 ≡ some (some 1))
login_delivers_example =
    login_delivers clock (λ a b. Bool.true) 7 1 2 "d" "r" (λ k n. n) request 0 0 (codes "acDE fghj")
      0 1 2 3 4 5 conn code_unused hash_unused token_unused no_spaces spelled timely

-- Login 7 was approved by user 1.
abbrev approved_login : DeviceCode
approved_login = record {
  id = 7;
  user_id = some 1;
  user_code = codes "ACDE-FGHJ";
  device_hash = "d";
  client_name = codes "pi";
  hostname = codes "box";
  platform = codes "linux";
  expires_at = "00:10";
  approved_at = some "00:05";
  denied_at = none;
  consumed_at = none;
  token_hash = none;
}

abbrev approved_conn : Conn
approved_conn = record {
  tables = record (tables order) { device_codes = approved_login ∷ [] };
  tick = 0;
}

own : IsOwn (str_trim "d") 7 approved_conn.tables
unfolding count_where str_trim
own = refl

poll_once_example :
    let first = poll clock Bool.true "d" 1 2 "r" 2 3 quiet approved_conn in
    let second = poll clock Bool.true "d" 4 5 "s" 5 6 quiet first.1 in
    (is_delivered first.0 && is_delivered second.0) ≡ false
poll_once_example =
    poll_once clock "d" 7 quiet (λ n t h. h) (λ n t h. h) Bool.true 1 2 "r" 2 3 Bool.true 4 5 "s" 5
      6 approved_conn own

abbrev requests : List Request
requests =
    approves 2 (codes "acde fghj") 1
    ∷ starts Bool.true 8 "e" (λ k n. n) request 2 2
    ∷ polls Bool.true "d" 1 2 "r" 2 3
    ∷ []

fresh : all (is_fresh 7) requests ≡ Bool.true
unfolding is_fresh
fresh = refl

bound : IsBound 7 1 approved_conn.tables
unfolding count_where
bound = refl

handle_all-IsBound_example :
    IsBound 7 1 (handle_all clock (λ a b. Bool.true) requests shaky approved_conn).1.tables
handle_all-IsBound_example =
    handle_all-IsBound clock (λ a b. Bool.true) 7 1 shaky requests (λ n t h. h) fresh approved_conn
      bound
