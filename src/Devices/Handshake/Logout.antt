-- ===== src/Devices/Handshake/Logout.antt =====
-- A session that was ended binds no machine.
use yunova.Base.{ℕ, ◌≡◌, ap, Bool, true, false, Option, none, some, List, String}
use yunova.Base.Text.{str_trim}
use yunova.Db.{Env, Conn, pure}
use yunova.Db.Rules.{IsStable}
use yunova.Db.Runs.{bind_at}
use yunova.AgentToken.{Clock}
use yunova.Auth
use yunova.Auth.Logout.{IsOver, user_for_token-delete_session}
use yunova.Devices.Handshake.{signed_out, Fresh, attach_by, attach, bind_for}

-- Where the statement of `delete_session` does not fail, and other requests make no session with its hash,
-- a device that attaches by that session is told to sign in again, whichever other statements fail, and does
-- nothing to the tables after the session was looked up: no machine is bound.
pub attach-delete_session :
    (clock : Clock) (lower : String → String) (verify_password : String → String → Bool)
    (fresh : Fresh) (now : ℕ) (query_token : Option String) (session : String) (name : List ℕ)
    (platform : Option String) (fingerprint : Option (List ℕ)) (e : Env)
    → let token = str_trim session in
      IsStable (IsOver (clock.token_hash token)) e
      → (c : Conn) → e.fails c.tick ≡ false
      → let ended = (Auth.delete_session clock token e c).1 in
        attach clock lower verify_password true fresh now query_token
          (attach_by session name platform fingerprint)
          e
          ended
        ≡ (some signed_out, (Auth.user_for_token clock now token e ended).1)
unfolding attach bind_for pure
attach-delete_session clock lower verify_password fresh now query_token session name platform
      fingerprint e s c f =
    let token = str_trim session in
    let ended = (Auth.delete_session clock token e c).1 in
    bind_at (Auth.user_for_token clock now token)
      (bind_for clock lower verify_password signed_out fresh name platform fingerprint) e ended
      (Auth.user_for_token clock now token e ended).1 none
      (ap (λ (r : Option (Option ℕ)). (r, (Auth.user_for_token clock now token e ended).1))
        (user_for_token-delete_session clock now token e s c f))
