-- ===== src/Auth/Logout.antt =====
-- A session that is deleted is over.
use yunova.Base.{◌≡◌, refl, ℕ, false, none, some, List, [], ◌∷◌, String, inl, inr, Bool-cases}
use text.Mathlib.Text.{◌==◌ as str_eq}
use yunova.Schema.{Tables, Session}
use yunova.Db.{Env, Conn, running}
use yunova.Db.Rules.{IsStable}
use yunova.AgentToken.{Clock}
use yunova.Auth.{find_session, drop_session, delete_session, user_for_token, accept_session}

-- No session has this hash.
abbrev pub IsOver : String → Tables → Type 0
IsOver hash t = find_session hash t.sessions ≡ none

find_session-drop_session :
    (hash : String) (rs : List Session) → find_session hash (drop_session hash rs) ≡ none
unfolding find_session drop_session
find_session-drop_session hash [] = refl
find_session-drop_session hash (r ∷ rs) = elim (Bool-cases (str_eq r.token_hash hash)) [
  | inl y ↦ rw y (find_session-drop_session hash rs)
  | inr n ↦ rw (n, n) (find_session-drop_session hash rs)
]

module _ (clock : Clock) where
  over_refused :
      (now : ℕ) (token : String) (e : Env)
      → IsStable (IsOver (clock.token_hash token)) e
      → (c : Conn) → IsOver (clock.token_hash token) c.tables
      → (user_for_token clock now token e c).0 ≡ some none
  unfolding user_for_token accept_session running
  over_refused now token e s c h = elim (Bool-cases (e.fails c.tick)) [
    | inl f ↦ rw f refl
    | inr g ↦ rw (g, s c.tick c.tables h) refl
  ]

  deleted :
      (token : String) (e : Env) (c : Conn)
      → e.fails c.tick ≡ false
      → IsOver (clock.token_hash token) (delete_session clock token e c).1.tables
  unfolding delete_session running
  deleted token e c f = rw f (find_session-drop_session _ _)

-- Where the statement of `delete_session` does not fail, and other requests make no session with the
-- hash, the token is nobody's from then on, whichever other statements fail.
pub user_for_token-delete_session :
    (clock : Clock) (now : ℕ) (token : String) (e : Env)
    → IsStable (IsOver (clock.token_hash token)) e
    → (c : Conn) → e.fails c.tick ≡ false
    → (user_for_token clock now token e (delete_session clock token e c).1).0 ≡ some none
user_for_token-delete_session clock now token e s c f =
    over_refused clock now token e s (delete_session clock token e c).1 (deleted clock token e c f)
