-- ===== src/AgentToken/Laws.antt =====
-- The life of a token: it is accepted once it is minted, and refused once it is revoked.
use yunova.Base.{
  ℕ, suc, ◌+◌, ◌*◌, ◌≤◌, ◌<◌, max, ◌≡◌, refl, eq_refl, ap, true, false, ◌&&◌, Option, none, some,
  List, [], ◌∷◌, String, if◌then◌else◌, ◌==◌, leb, inl, inr, Bool-cases, Option-cases, arith,
}
use text.Mathlib.Text.{◌==◌ as str_eq}
use yunova.Base.Text.{strip_prefix-codes}
use yunova.Schema.{Tables, AgentToken}
use yunova.Db.{Env, Conn, quiet, running}
use yunova.Db.Rules.{IsStable}
use yunova.AgentToken.{
  Clock, not_found, is_agent_token, new_token, find_token, revoke_hash, revoke_id, count_id,
  count_live, put_tokens, is_expired, accept_row, user_for_token, minted, insert_token, mint,
  revoke_by_plaintext, create_token, revoke_token, max_tokens_per_user, has_expired, display_name,
  token_prefix,
}

-- The rows with this hash that are not revoked.
abbrev pub count_active : String → List AgentToken → ℕ
count_active hash [] = 0
count_active hash (r ∷ rs) =
    let rest = count_active hash rs in
    if str_eq r.token_hash hash && r.revoked == 0 then suc rest else rest

-- No token with this hash is active.
abbrev pub IsDead : String → Tables → Type 0
IsDead hash t = count_active hash t.agent_tokens ≡ 0

count_active-revoke_hash :
    (hash : String) (rs : List AgentToken) → count_active hash (revoke_hash hash rs) ≡ 0
unfolding revoke_hash
count_active-revoke_hash hash [] = refl
count_active-revoke_hash hash (r ∷ rs) = ground (arith, count_active-revoke_hash hash rs)

find_token_dead :
    (hash : String) (rs : List AgentToken) (r : AgentToken)
    → find_token hash rs ≡ some r
    → count_active hash rs ≡ 0
    → (r.revoked == 0) ≡ false
unfolding find_token
find_token_dead hash [] r e d = absurd (ground arith)
find_token_dead hash (x ∷ xs) r e d = ground (arith, find_token_dead hash xs r)

module _ (clock : Clock) where
  accept_row_dead :
      (now later : ℕ) (hash : String) (rs : List AgentToken) (e : Env) (c : Conn)
      → count_active hash rs ≡ 0
      → (accept_row clock now later (some (find_token hash rs)) e c).0 ≡ some none
  unfolding accept_row running
  accept_row_dead now later hash rs e c d = elim (Option-cases (find_token hash rs)) [
    | inl n ↦ rw n refl
    | inr (r, p) ↦ rw (p, find_token_dead hash rs r p d) refl
  ]

  -- A token is refused where no row with its hash is active and other requests keep that, whichever
  -- statements fail.
  pub user_for_token_dead :
      (now later : ℕ) (token : String) (e : Env)
      → IsStable (IsDead (clock.token_hash token)) e
      → (c : Conn) → IsDead (clock.token_hash token) c.tables
      → (user_for_token clock now later token e c).0 ≡ some none
  unfolding user_for_token running accept_row
  user_for_token_dead now later token e s c d = elim (Bool-cases (is_agent_token token)) [
    | inl y ↦ elim (Bool-cases (e.fails c.tick)) [
      | inl f ↦ rw (y, f) refl
      | inr g ↦
          rw (y, g)
            (accept_row_dead now later (clock.token_hash token)
              (e.others c.tick c.tables).agent_tokens e _ (s c.tick c.tables d))
    ]
    | inr n ↦ rw n refl
  ]

  revoke_by_plaintext-IsDead :
      (token : String) (e : Env) (c : Conn)
      → e.fails c.tick ≡ false
      → IsDead (clock.token_hash token) (revoke_by_plaintext clock token e c).1.tables
  unfolding revoke_by_plaintext running
  revoke_by_plaintext-IsDead token e c f = rw f (count_active-revoke_hash _ _)

  -- Where the statement of `revoke_by_plaintext` does not fail, and other requests activate no token
  -- with the hash, the token is refused from then on, whichever other statements fail.
  pub user_for_token-revoke_by_plaintext :
      (now later : ℕ) (token : String) (e : Env)
      → IsStable (IsDead (clock.token_hash token)) e
      → (c : Conn) → e.fails c.tick ≡ false
      → (user_for_token clock now later token e (revoke_by_plaintext clock token e c).1).0
        ≡ some none
  user_for_token-revoke_by_plaintext now later token e s c f =
      user_for_token_dead now later token e s (revoke_by_plaintext clock token e c).1
        (revoke_by_plaintext-IsDead token e c f)

  -- The time at which a token minted at `now` expires is written and read as itself, and lies ahead.
  abbrev pub IsAlive : Option ℕ → ℕ → ℕ → Type 0
  IsAlive none now at = Unit
  IsAlive (some h) now at =
      let end = now + h * 3_600_000_000_000 in
      (clock.parse_from_rfc3339 (clock.to_rfc3339 end) ≡ some end) × (at < end)

  expired_ahead :
      (raw : String) (end at : ℕ)
      → clock.parse_from_rfc3339 raw ≡ some end
      → at < end
      → has_expired clock (some raw) at ≡ false
  unfolding has_expired is_expired
  expired_ahead raw end at e h = ground arith

  pub minted_alive :
      (id uid : ℕ) (name : List ℕ) (token : String) (ttl : Option ℕ) (now at : ℕ)
      → IsAlive ttl now at
      → has_expired clock (minted clock id uid name token ttl now).expires_at at ≡ false
  unfolding minted has_expired is_expired
  minted_alive id uid name token none now at h = refl
  minted_alive id uid name token (some n) now at h =
      let end = now + n * 3_600_000_000_000 in expired_ahead (clock.to_rfc3339 end) end at h.0 h.1

  pub new_token-is_agent_token : (random : String) → is_agent_token (new_token random) ≡ true
  unfolding is_agent_token new_token
  new_token-is_agent_token random =
      ap (λ (r : Option (List ℕ)). elim r [ none ↦ false | some rest ↦ true ])
        (strip_prefix-codes token_prefix random)

  module _ (id uid : ℕ) (random : String) (name : List ℕ) (ttl : Option ℕ) (now : ℕ)
      (c : Conn) where
    abbrev pub after : List AgentToken → Conn
    after rs = record { tables = put_tokens rs c.tables; tick = suc c.tick }

    pub mint_new :
        find_token (clock.token_hash (new_token random)) c.tables.agent_tokens ≡ none
        → mint clock id random uid name ttl now quiet c ≡ (
          some (new_token random),
          after (minted clock id uid name (new_token random) ttl now ∷ c.tables.agent_tokens),
        )
    unfolding mint minted insert_token running
    mint_new new = ground arith

    mint_taken :
        (old : AgentToken)
        → find_token (clock.token_hash (new_token random)) c.tables.agent_tokens ≡ some old
        → mint clock id random uid name ttl now quiet c ≡ (none, after c.tables.agent_tokens)
    unfolding mint minted insert_token running
    mint_taken old taken = ground arith

  pub find_token_first :
      (r : AgentToken) (rs : List AgentToken) → find_token r.token_hash (r ∷ rs) ≡ some r
  unfolding find_token
  find_token_first r rs = rw (eq_refl r.token_hash) refl

  pub accept_row_live :
      (at later : ℕ) (r : AgentToken) (c : Conn)
      → r.revoked ≡ 0
      → has_expired clock r.expires_at at ≡ false
      → (accept_row clock at later (some (some r)) quiet c).0 ≡ some (some r.user_id)
  unfolding accept_row running
  accept_row_live at later r c live ahead = rw (live, ahead) refl

  -- Without failures and other requests, a token that is minted under a new hash is accepted for its
  -- user until it expires.
  user_for_token-mint :
      (id uid : ℕ) (random : String) (name : List ℕ) (ttl : Option ℕ) (now at later : ℕ) (c : Conn)
      → find_token (clock.token_hash (new_token random)) c.tables.agent_tokens ≡ none
      → IsAlive ttl now at
      → (user_for_token clock at later
          (new_token random)
          quiet
          (mint clock id random uid name ttl now quiet c).1).0
        ≡ some (some uid)
  unfolding user_for_token minted running
  user_for_token-mint id uid random name ttl now at later c new alive =
      let r = minted clock id uid name (new_token random) ttl now in
      rw
        (
          mint_new id uid random name ttl now c new,
          new_token-is_agent_token random,
          find_token_first r c.tables.agent_tokens,
        )
        (accept_row_live at later r _ refl
          (minted_alive id uid name (new_token random) ttl now at alive))

revoke_id_foreign :
    (id uid : ℕ) (rs : List AgentToken) → count_id id uid rs ≡ 0 → revoke_id id uid rs ≡ rs
unfolding revoke_id count_id
revoke_id_foreign id uid [] e = refl
revoke_id_foreign id uid (r ∷ rs) e = ground (arith, revoke_id_foreign id uid rs)

-- Whoever asks to revoke a row that is no token of theirs is told that there is none, and nothing
-- changes; no statement fails and no other request runs.
revoke_token_foreign :
    (uid id : ℕ) (c : Conn)
    → count_id id uid c.tables.agent_tokens ≡ 0
    → ((revoke_token uid id quiet c).0 ≡ some not_found)
      × ((revoke_token uid id quiet c).1.tables ≡ c.tables)
unfolding revoke_token running
revoke_token_foreign uid id c none_there =
    rw (none_there, revoke_id_foreign id uid c.tables.agent_tokens none_there) (refl, refl)

-- Whatever a request to create a token answers, its user then has no more live tokens than before or
-- than the limit, no statement failing and no other request running.
create_token_bounded :
    (clock : Clock) (id uid : ℕ) (random : String) (name : Option (List ℕ)) (now : ℕ) (c : Conn)
    → count_live uid (create_token clock id random uid name now quiet c).1.tables.agent_tokens
      ≤ max (count_live uid c.tables.agent_tokens) max_tokens_per_user
unfolding create_token minted count_live running
create_token_bounded clock id uid random name now c =
    let c' : Conn = record { tables = c.tables; tick = suc c.tick } in
    let shown = display_name name in
    elim (Bool-cases (leb max_tokens_per_user (count_live uid c.tables.agent_tokens))) [
      | inl full ↦ rw full (omega arith)
      | inr room ↦
          elim (Option-cases
            (find_token (clock.token_hash (new_token random)) c.tables.agent_tokens)) [
              | inl new ↦
                  rw (room, mint_new clock id uid random shown none now c' new) (ground arith)
              | inr (old, taken) ↦
                  rw (room, mint_taken clock id uid random shown none now c' old taken)
                    (omega arith)
            ]
    ]
