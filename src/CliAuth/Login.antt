-- ===== src/CliAuth/Login.antt =====
-- A whole login of src/cli_auth.rs: started, approved, collected, and used.
use yunova.Base.{
  ℕ, suc, ◌≡◌, refl, sym, ap, ◌∙◌, Bool, true, false, not, ◌&&◌, Option, none, some, List, ◌∷◌,
  String, ◌==◌, arith, eq_refl,
}
use text.Mathlib.Text.{◌==◌ as str_eq}
use yunova.Base.Text.{codes, str_trim}
use yunova.Schema.{AgentToken, DeviceCode}
use yunova.Db.{Conn, quiet, running}
use yunova.AgentToken
use yunova.AgentToken.{Clock, is_expired, new_token, find_token, minted, put_tokens}
use yunova.AgentToken.Laws.{
  mint_new, IsAlive, find_token_first, accept_row_live, minted_alive, new_token-is_agent_token,
}
use yunova.CliAuth.Codes.{new_user_code, normalize_user_code, clean_label}
use yunova.CliAuth.Rows.{
  same_refl, find_code-delete_where, find_hash-delete_where, update_first, positive,
}
use yunova.CliAuth.Codes.Spelling.{Spells, letters, normalize_user_code_spelled}
use yunova.CliAuth.{
  find_hash, find_code, count_where, set_where, delete_where, is_some, can_approve, insert_code,
  StartReq, Polled, started, no_content, delivered, prune_expired, new_row, allocate, start,
  claim_code, deliver, claim, collect, answer_poll, poll, answer_approve, approve, put_codes,
  or_zero, cli_token_ttl_hours, find_username,
}

module _ (clock : Clock) (before : String → String → Bool) (id uid token_id : ℕ)
    (device_code random : String) (draw : ℕ → ℕ → ℕ) (req : StartReq) (now later : ℕ) where
  abbrev code : List ℕ
  code = new_user_code (draw 0)

  abbrev row : DeviceCode
  row = new_row clock id device_code req later code

  -- The rows that are left beside the new one.
  abbrev pruned : Conn → List DeviceCode
  pruned c = delete_where (λ r. before r.expires_at (clock.to_rfc3339 now)) c.tables.device_codes

  abbrev opened : Conn → Conn
  opened c = record { tables = put_codes (row ∷ pruned c) c.tables; tick = suc (suc c.tick) }

  start_opens :
      (c : Conn)
      → find_code code c.tables.device_codes ≡ none
      → find_hash (clock.token_hash device_code) c.tables.device_codes ≡ none
      → start clock before true id device_code draw req now later quiet c
        ≡ (some (started device_code code), opened c)
  unfolding start prune_expired allocate insert_code new_row running find_code new_user_code
      clean_label delete_where
  start_opens c no_code no_hash =
      rw
        (
          find_code-delete_where (λ r. before r.expires_at (clock.to_rfc3339 now)) code
              c.tables.device_codes no_code,
          find_hash-delete_where (λ r. before r.expires_at (clock.to_rfc3339 now))
              (clock.token_hash device_code) c.tables.device_codes no_hash,
        )
        refl

  abbrev approved_row : ℕ → DeviceCode
  approved_row at = record row { user_id = some uid; approved_at = some (clock.to_rfc3339 at) }

  abbrev approved : ℕ → Conn → Conn
  approved at c = record {
    tables =
        put_codes
          (approved_row at
            ∷ set_where (can_approve before (clock.to_rfc3339 at) code)
                (λ r. record r { user_id = some uid; approved_at = some (clock.to_rfc3339 at) })
                (pruned c))
          c.tables;
    tick = suc (suc (suc c.tick));
  }

  approve_binds :
      (typed : List ℕ) (at : ℕ) (c : Conn)
      → normalize_user_code typed ≡ code
      → before (clock.to_rfc3339 at) row.expires_at ≡ true
      → approve clock before uid typed at quiet (opened c) ≡ (some no_content, approved at c)
  unfolding approve answer_approve or_zero new_row running
  approve_binds typed at c right ahead =
      let free : can_approve before (clock.to_rfc3339 at) code row ≡ true =
        rw (same_refl code, ahead) refl in
      rw
        (
          right,
          update_first (can_approve before (clock.to_rfc3339 at) code)
              (λ r. record r { user_id = some uid; approved_at = some (clock.to_rfc3339 at) }) row
              (pruned c) (opened c).tables refl free,
          positive (count_where (can_approve before (clock.to_rfc3339 at) code) (pruned c)),
        )
        refl

  -- A login that is approved and not yet collected, at the head of the table.
  record IsReady (at : ℕ) (r : DeviceCode) (rs : List DeviceCode) (c : Conn) : Type 0 where
    rows : c.tables.device_codes ≡ r ∷ rs
    hash : r.device_hash ≡ clock.token_hash (str_trim device_code)
    owner : r.user_id ≡ some uid
    approval : is_some r.approved_at ≡ true
    undenied : r.denied_at ≡ none
    uncollected : r.consumed_at ≡ none
    alive : is_expired clock r.expires_at at ≡ false

  claim_delivers :
      (token : String) (at : ℕ) (r : DeviceCode) (rs : List DeviceCode) (c : Conn)
      → c.tables.device_codes ≡ r ∷ rs
      → r.consumed_at ≡ none
      → let after = claim clock r.id uid at (some token) quiet c in
        (after.0 ≡ some (delivered token (find_username uid c.tables.users)))
        × (after.1.tables.agent_tokens ≡ c.tables.agent_tokens)
  unfolding claim claim_code deliver or_zero running
  claim_delivers token at r rs c e u =
      let p = λ (x : DeviceCode). x.id == r.id && not (is_some x.consumed_at) in
      let free : (r.id == r.id && not (is_some r.consumed_at)) ≡ true = rw u (ground arith) in
      rw
        (
          update_first p
              (λ x. record x {
                consumed_at = some (clock.to_rfc3339 at);
                token_hash = some (clock.token_hash token);
              })
              r rs c.tables e free,
          positive (count_where p rs),
        )
        (refl, refl)

  abbrev token : String
  token = new_token random

  abbrev new_tokens : ℕ → Conn → List AgentToken
  new_tokens at c =
      minted clock token_id uid (codes "CLI 登录") token (some cli_token_ttl_hours) at
      ∷ c.tables.agent_tokens

  abbrev Delivers : ℕ → Conn → Option Polled × Conn → Type 0
  Delivers at c r =
      (r.0 ≡ some (delivered token (find_username uid c.tables.users)))
      × (r.1.tables.agent_tokens ≡ new_tokens at c)

  collect-Delivers :
      (at then_at : ℕ) (r : DeviceCode) (rs : List DeviceCode) (c : Conn)
      → c.tables.device_codes ≡ r ∷ rs
      → r.consumed_at ≡ none
      → find_token (clock.token_hash token) c.tables.agent_tokens ≡ none
      → Delivers at c (collect clock r.id uid token_id random at then_at quiet c)
  unfolding collect running
  collect-Delivers at then_at r rs c e u new =
      rw (mint_new clock token_id uid random (codes "CLI 登录") (some cli_token_ttl_hours) at c new) (
        claim_delivers token then_at r rs
          (record { tables = put_tokens (new_tokens at c) c.tables; tick = suc c.tick }) e u)

  found_first :
      (seen : ℕ) (r : DeviceCode) (rs : List DeviceCode) (c : Conn)
      → IsReady seen r rs c
      → find_hash (clock.token_hash (str_trim device_code)) c.tables.device_codes ≡ some r
  unfolding find_hash
  found_first seen r rs c h =
      let hash = clock.token_hash (str_trim device_code) in
      let same_hash : str_eq r.device_hash hash ≡ true = rw h.hash (eq_refl hash) in
      ap (find_hash hash) h.rows ∙ rw same_hash refl

  answer_collects :
      (seen at then_at : ℕ) (r : DeviceCode) (rs : List DeviceCode) (c : Conn)
      → IsReady seen r rs c
      → answer_poll clock seen token_id random at then_at (some r)
        ≡ collect clock r.id uid token_id random at then_at
  unfolding answer_poll
  answer_collects seen at then_at r rs c h =
      rw (h.undenied, h.alive, h.uncollected, h.approval, h.owner) refl

  poll-Delivers :
      (seen at then_at : ℕ) (r : DeviceCode) (rs : List DeviceCode) (c : Conn)
      → IsReady seen r rs c
      → find_token (clock.token_hash token) c.tables.agent_tokens ≡ none
      → Delivers at c (poll clock true device_code seen token_id random at then_at quiet c)
  unfolding poll running
  poll-Delivers seen at then_at r rs c h new =
      rw (found_first seen r rs c h, answer_collects seen at then_at r rs c h)
        (collect-Delivers at then_at r rs (record { tables = c.tables; tick = suc c.tick }) h.rows
          h.uncollected new)

  -- The times at which the code and the token expire are written and read as themselves; the code is
  -- approved and collected, and the token used, in time.
  pub record IsTimely (approves polls collects uses : ℕ) : Type 0 where
    pub before_expiry : before (clock.to_rfc3339 approves) row.expires_at ≡ true
    pub code_alive : is_expired clock row.expires_at polls ≡ false
    pub token_alive : IsAlive clock (some cli_token_ttl_hours) collects uses

  approved-IsReady :
      (at polls : ℕ) (c : Conn)
      → str_trim device_code ≡ device_code
      → is_expired clock row.expires_at polls ≡ false
      → IsReady polls
          (approved_row at)
          (set_where
            (can_approve before (clock.to_rfc3339 at) code)
            (λ r. record r { user_id = some uid; approved_at = some (clock.to_rfc3339 at) })
            (pruned c))
          (approved at c)
  unfolding new_row
  approved-IsReady at polls c plain alive = record {
    rows = refl;
    hash = ap clock.token_hash (sym plain);
    owner = refl;
    approval = refl;
    undenied = refl;
    uncollected = refl;
    alive = alive;
  }

  used_token :
      (minted_at at touches : ℕ) (c : Conn) (ts : List AgentToken)
      → c.tables.agent_tokens
        ≡ minted clock token_id uid (codes "CLI 登录") token (some cli_token_ttl_hours) minted_at ∷ ts
      → IsAlive clock (some cli_token_ttl_hours) minted_at at
      → (AgentToken.user_for_token clock at touches token quiet c).0 ≡ some (some uid)
  unfolding AgentToken.user_for_token minted running
  used_token minted_at at touches c ts e alive =
      let r =
        minted clock token_id uid (codes "CLI 登录") token (some cli_token_ttl_hours) minted_at in
      rw (new_token-is_agent_token clock random, e, find_token_first clock r ts)
        (accept_row_live clock at touches r _ refl (
          minted_alive clock token_id uid (codes "CLI 登录") token (some cli_token_ttl_hours)
            minted_at at alive))

  -- Without failures and other requests: a login is started under a code and a device code that no other
  -- row has, the user types its characters in either case and with any signs between, and the client polls, all
  -- in time. Then the start shows the code, the approval is accepted, the poll delivers the new token with
  -- the user's name, and the token is accepted as the one of the user who approved.
  pub login_delivers :
      (typed : List ℕ) (approves polls collects claims uses touches : ℕ) (c : Conn)
      → find_code code c.tables.device_codes ≡ none
      → find_hash (clock.token_hash device_code) c.tables.device_codes ≡ none
      → find_token (clock.token_hash token) c.tables.agent_tokens ≡ none
      → str_trim device_code ≡ device_code
      → Spells typed (letters (draw 0))
      → IsTimely approves polls collects uses
      → let begun = start clock before true id device_code draw req now later quiet c in
        let bound = approve clock before uid typed approves quiet begun.1 in
        let polled =
          poll clock true device_code polls token_id random collects claims quiet bound.1 in
        (begun.0 ≡ some (started device_code code))
        × (bound.0 ≡ some no_content)
        × (polled.0 ≡ some (delivered token (find_username uid c.tables.users)))
        × ((AgentToken.user_for_token clock uses touches token quiet polled.1).0 ≡ some (some uid))
  login_delivers typed approves polls collects claims uses touches c no_code no_hash new plain
        spelled timely =
      let begun = start_opens c no_code no_hash in
      let bound =
        approve_binds typed approves c (normalize_user_code_spelled (draw 0) typed spelled)
          timely.before_expiry in
      let done =
        poll-Delivers polls collects claims (approved_row approves) _ (approved approves c)
          (approved-IsReady approves polls c plain timely.code_alive) new in
      rw (begun, bound)
        (
          refl,
          refl,
          done.0,
          used_token collects uses touches _ c.tables.agent_tokens done.1 timely.token_alive,
        )
