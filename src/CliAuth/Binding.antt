-- ===== src/CliAuth/Binding.antt =====
-- An approval of src/cli_auth.rs binds a login to one account for good: no request re-points it.
use yunova.Base.{
  ℕ, zero, suc, ◌≡◌, Bool, true, false, not, ◌&&◌, ◌||◌, Option, none, some, List, [], ◌∷◌, String,
  ◌==◌, arith, inl, inr, Bool-cases, all,
}
use yunova.Schema.{Tables, DeviceCode}
use yunova.Db.{Env, Conn, pure, attempt, statement}
use yunova.Db.Rules.{
  IsStable, Keeps, Lands, pure-Keeps, if-Keeps, bind-Keeps, then-Keeps, attempt-Keeps,
  statement-Keeps, select-Keeps,
}
use yunova.AgentToken.{Clock, is_expired}
use yunova.AgentToken.Writes.{mint-Keeps, revoke_by_plaintext-Keeps}
use yunova.CliAuth.Codes.{new_user_code, normalize_user_code}
use yunova.CliAuth.Rows.{count_where-set_where, count_where-delete_where}
use yunova.CliAuth.{
  find_hash, find_code, count_where, is_some, can_approve, insert_code, update_codes, StartReq,
  authorization_pending, prune_expired, new_row, allocate, start, claim_code, deliver, claim,
  collect, answer_poll, poll, describe, answer_approve, approve, deny, Request, starts, polls,
  describes, approves, denies, handle, handle_all,
}

abbrev is_owner : ℕ → Option ℕ → Bool
is_owner u none = false
is_owner u (some v) = v == u

-- Every row of this id belongs to the account.
abbrev pub is_stray : ℕ → ℕ → DeviceCode → Bool
is_stray n u r = r.id == n && not (is_owner u r.user_id)

abbrev pub IsBound : ℕ → ℕ → Tables → Type 0
IsBound n u t = count_where (is_stray n u) t.device_codes ≡ 0

can_approve_unbound :
    (before : String → String → Bool) (at : String) (code : List ℕ) (n u v : ℕ) (r : DeviceCode)
    → can_approve before at code r ≡ true
    → is_stray n u r ≡ false
    → is_stray n u (record r { user_id = some v; approved_at = some at }) ≡ false
can_approve_unbound before at code n u v r free h = ground arith

-- A request starts no login under the id `n`, which the database has given away.
unfoldable pub is_fresh : ℕ → Request → Bool
is_fresh n (starts allowed id device_code draw req now later) = not (id == n)
is_fresh n _ = true

module _ (clock : Clock) (before : String → String → Bool) (n u : ℕ) (e : Env)
    (s : IsStable (IsBound n u) e) where
  update_codes-Keeps :
      (q : DeviceCode → Bool) (f : DeviceCode → DeviceCode)
      → ((r : DeviceCode) → q r ≡ true → is_stray n u r ≡ false → is_stray n u (f r) ≡ false)
      → Keeps (IsBound n u) e (attempt (statement (update_codes q f)))
  unfolding update_codes
  update_codes-Keeps q f keeps =
      attempt-Keeps (
        statement-Keeps _ s
          (λ t h. count_where-set_where (is_stray n u) q f keeps t.device_codes h))

  insert_code-Lands :
      (r : DeviceCode) (t : Tables)
      → (r.id == n) ≡ false
      → IsBound n u t
      → Lands (IsBound n u) (insert_code r t)
  unfolding insert_code count_where
  insert_code-Lands r t new h =
      elim (Bool-cases (
        is_some (find_code r.user_code t.device_codes)
        || is_some (find_hash r.device_hash t.device_codes))) [
          | inl taken ↦ rw (taken, Lands) tt
          | inr unused ↦ rw (unused, Lands, new) h
        ]

  allocate-Keeps :
      (row : List ℕ → DeviceCode) (draw : ℕ → ℕ → ℕ) (device_code : String) (k m : ℕ)
      → ((code : List ℕ) → ((row code).id == n) ≡ false)
      → Keeps (IsBound n u) e (allocate clock row draw device_code k m)
  unfolding allocate
  allocate-Keeps row draw device_code k zero new = pure-Keeps _
  allocate-Keeps row draw device_code k (suc m) new =
      bind-Keeps
        (attempt-Keeps (
          statement-Keeps _ s
            (λ t h. insert_code-Lands (row (new_user_code (draw k))) t (new _) h)))
        (elim [ some _ ↦ pure-Keeps _ | none ↦ allocate-Keeps row draw device_code (suc k) m new ])

  start-Keeps :
      (allowed : Bool) (id : ℕ) (device_code : String) (draw : ℕ → ℕ → ℕ) (req : StartReq)
      (now later : ℕ)
      → (id == n) ≡ false
      → Keeps (IsBound n u) e (start clock before allowed id device_code draw req now later)
  unfolding start prune_expired new_row
  start-Keeps allowed id device_code draw req now later new = if-Keeps _ (pure-Keeps _) (
      then-Keeps
        (then-Keeps
          (attempt-Keeps (
            statement-Keeps _ s
              (λ t h. count_where-delete_where (is_stray n u) _ t.device_codes h)))
          (pure-Keeps tt))
        (allocate-Keeps _ draw device_code 0 8 (λ code. new)))

  claim-Keeps :
      (id uid now : ℕ) (token : Option String)
      → Keeps (IsBound n u) e (claim clock id uid now token)
  unfolding claim claim_code deliver
  claim-Keeps id uid now none = pure-Keeps _
  claim-Keeps id uid now (some token) = bind-Keeps (update_codes-Keeps _ _ (λ r q h. h)) (λ claimed.
      if-Keeps _
        (then-Keeps (revoke_by_plaintext-Keeps clock (IsBound n u) (λ rs t h. h) token s)
          (pure-Keeps _))
        (bind-Keeps (attempt-Keeps (select-Keeps _ s)) (λ name. pure-Keeps _)))

  collect-Keeps :
      (id uid token_id : ℕ) (random : String) (now later : ℕ)
      → Keeps (IsBound n u) e (collect clock id uid token_id random now later)
  unfolding collect
  collect-Keeps id uid token_id random now later =
      bind-Keeps
        (attempt-Keeps (mint-Keeps clock (IsBound n u) (λ rs t h. h) token_id random uid _ _ now s))
        (claim-Keeps id uid later)

  approved-Keeps :
      (owner : Option ℕ) (id token_id : ℕ) (random : String) (now later : ℕ)
      → Keeps (IsBound n u) e (elim owner [
        | none ↦ pure authorization_pending
        | some uid ↦ collect clock id uid token_id random now later
      ])
  approved-Keeps none id token_id random now later = pure-Keeps _
  approved-Keeps (some uid) id token_id random now later =
      collect-Keeps id uid token_id random now later

  answer_poll-Keeps :
      (at token_id : ℕ) (random : String) (now later : ℕ) (row : Option DeviceCode)
      → Keeps (IsBound n u) e (answer_poll clock at token_id random now later row)
  unfolding answer_poll
  answer_poll-Keeps at token_id random now later none = pure-Keeps _
  answer_poll-Keeps at token_id random now later (some r) =
      if-Keeps (is_some r.denied_at) (pure-Keeps _) (
        if-Keeps (is_expired clock r.expires_at at) (pure-Keeps _) (
          if-Keeps (is_some r.consumed_at) (pure-Keeps _) (
            if-Keeps (not (is_some r.approved_at)) (pure-Keeps _)
              (approved-Keeps r.user_id r.id token_id random now later))))

  handle-Keeps : (q : Request) → is_fresh n q ≡ true → Keeps (IsBound n u) e (handle clock before q)
  unfolding handle is_fresh poll describe approve answer_approve deny
  handle-Keeps (starts allowed id device_code draw req now later) new =
      then-Keeps (start-Keeps allowed id device_code draw req now later (ground arith))
        (pure-Keeps tt)
  handle-Keeps (polls allowed device_code at token_id random now later) new =
      then-Keeps
        (if-Keeps _ (pure-Keeps _) (
          bind-Keeps (attempt-Keeps (select-Keeps _ s))
            (λ row. answer_poll-Keeps at token_id random now later _)))
        (pure-Keeps tt)
  handle-Keeps (describes user_code now) new =
      then-Keeps (bind-Keeps (attempt-Keeps (select-Keeps _ s)) (λ row. pure-Keeps _))
        (pure-Keeps tt)
  handle-Keeps (approves uid user_code now) new =
      then-Keeps
        (bind-Keeps
          (update_codes-Keeps _ _ (
            can_approve_unbound before (clock.to_rfc3339 now) (normalize_user_code user_code) n u
              uid))
          (λ affected.
            if-Keeps _ (pure-Keeps _)
              (bind-Keeps (attempt-Keeps (select-Keeps _ s)) (λ row. pure-Keeps _))))
        (pure-Keeps tt)
  handle-Keeps (denies user_code now) new =
      then-Keeps (update_codes-Keeps _ _ (λ r q h. h)) (pure-Keeps tt)

  handle_all-Keeps :
      (qs : List Request)
      → all (is_fresh n) qs ≡ true
      → Keeps (IsBound n u) e (handle_all clock before qs)
  unfolding handle_all
  handle_all-Keeps [] new = pure-Keeps tt
  handle_all-Keeps (q ∷ qs) new =
      then-Keeps (attempt-Keeps (handle-Keeps q (ground arith)))
        (handle_all-Keeps qs (ground arith))

-- A login that belongs to an account belongs to it after any requests to start, poll, show, approve and
-- deny logins, whichever statements fail, and whatever other requests do between them that keeps this;
-- no login is started under its id again.
pub handle_all-IsBound :
    (clock : Clock) (before : String → String → Bool) (n u : ℕ) (e : Env) (qs : List Request)
    → IsStable (IsBound n u) e
    → all (is_fresh n) qs ≡ true
    → (c : Conn) → IsBound n u c.tables
    → IsBound n u (handle_all clock before qs e c).1.tables
handle_all-IsBound clock before n u e qs s new c h =
    (handle_all-Keeps clock before n u e s qs new).apply c h
