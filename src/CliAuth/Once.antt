-- ===== src/CliAuth/Once.antt =====
-- A login of src/cli_auth.rs delivers one token.
use yunova.Base.{
  ℕ, suc, ◌≡◌, refl, Bool, true, false, not, ◌&&◌, ◌||◌, Option, none, some, String, subst, arith,
  inl, inr, Bool-cases, Option-cases,
}
use yunova.Base.Text.{str_trim}
use yunova.Schema.{DeviceCode}
use yunova.Db.{Env, Conn, pure, running}
use yunova.Db.Rules.{IsStable}
use yunova.AgentToken.{Clock, is_expired}
use yunova.CliAuth.{
  find_hash, is_some, access_denied, expired_token, authorization_pending, is_delivered, collect,
  answer_poll, poll,
}
use yunova.CliAuth.Claims.{
  IsClosed, IsOwn, find_hash_closed, find_hash_own, Closes, refusal-Closes, if-Closes,
  collect_closes,
}

module _ (clock : Clock) where
  answer_poll_closed :
      (at id : ℕ) (random : String) (now later : ℕ) (r : DeviceCode) (e : Env) (c : Conn)
      → (is_some r.denied_at || is_some r.consumed_at) ≡ true
      → is_delivered (answer_poll clock at id random now later (some r) e c).0 ≡ false
  unfolding answer_poll is_delivered running
  answer_poll_closed at id random now later r e c h = elim (Bool-cases (is_some r.denied_at)) [
    | inl denied ↦ rw denied refl
    | inr kept ↦
        let consumed : is_some r.consumed_at ≡ true = ground arith in
        rw (kept, consumed)
          (elim (Bool-cases (is_expired clock r.expires_at at)) [
            | inl past ↦ rw past refl
            | inr ahead ↦ rw ahead refl
          ])
  ]

  -- Where every row of the device code was denied or collected, and other requests keep that, a poll
  -- delivers nothing, whichever statements fail.
  pub poll_closed :
      (allowed : Bool) (device_code : String) (at id : ℕ) (random : String) (now later : ℕ)
      (e : Env)
      → let hash = clock.token_hash (str_trim device_code) in
        IsStable (IsClosed hash) e
        → (c : Conn) → IsClosed hash c.tables
        → is_delivered (poll clock allowed device_code at id random now later e c).0 ≡ false
  unfolding poll answer_poll is_delivered running
  poll_closed false device_code at id random now later e s c h = refl
  poll_closed true device_code at id random now later e s c h =
      let hash = clock.token_hash (str_trim device_code) in
      let rs = (e.others c.tick c.tables).device_codes in
      elim (Bool-cases (e.fails c.tick)) [
        | inl failed ↦ rw failed refl
        | inr sent ↦ elim (Option-cases (find_hash hash rs)) [
          | inl missing ↦ rw (sent, missing) refl
          | inr (r, found) ↦
              rw (sent, found)
                (answer_poll_closed at id random now later r e _
                  (find_hash_closed hash rs r found (s c.tick c.tables h)))
        ]
      ]

  module _ (hash : String) (e : Env) (s : IsStable (IsClosed hash) e) where
    approved-Closes :
        (owner : Option ℕ) (id at token_id : ℕ) (random : String) (now later : ℕ) (c : Conn)
        → IsStable (IsOwn hash id) e
        → IsOwn hash id c.tables
        → Closes hash e c (elim owner [
          | none ↦ pure authorization_pending
          | some uid ↦ collect clock id uid token_id random now later
        ])
    unfolding is_delivered
    approved-Closes none id at token_id random now later c o own =
        refusal-Closes authorization_pending refl
    approved-Closes (some uid) id at token_id random now later c o own = record {
      apply = collect_closes clock hash e s id uid token_id random now later c o own;
    }

    answer_poll-Closes :
        (at token_id : ℕ) (random : String) (now later : ℕ) (r : DeviceCode) (c : Conn)
        → IsStable (IsOwn hash r.id) e
        → IsOwn hash r.id c.tables
        → Closes hash e c (answer_poll clock at token_id random now later (some r))
    unfolding answer_poll is_delivered
    answer_poll-Closes at token_id random now later r c o own =
        if-Closes (is_some r.denied_at) (refusal-Closes access_denied refl) (
          if-Closes (is_expired clock r.expires_at at) (refusal-Closes expired_token refl) (
            if-Closes (is_some r.consumed_at) (refusal-Closes expired_token refl) (
              if-Closes (not (is_some r.approved_at)) (refusal-Closes authorization_pending refl)
                (approved-Closes r.user_id r.id at token_id random now later c o own))))

    found-Closes :
        (at token_id : ℕ) (random : String) (now later : ℕ) (id : ℕ) (row : Option DeviceCode)
        (c : Conn)
        → IsStable (IsOwn hash id) e
        → IsOwn hash id c.tables
        → ((r : DeviceCode) → row ≡ some r → r.id ≡ id)
        → Closes hash e c (answer_poll clock at token_id random now later row)
    unfolding answer_poll is_delivered
    found-Closes at token_id random now later id none c o own same =
        refusal-Closes expired_token refl
    found-Closes at token_id random now later id (some r) c o own same =
        let q = same r refl in
        answer_poll-Closes at token_id random now later r c (rw q o) (rw q own)

    poll-Closes :
        (a : Bool) (device_code : String) (at token_id : ℕ) (random : String) (now later id : ℕ)
        (c : Conn)
        → clock.token_hash (str_trim device_code) ≡ hash
        → IsStable (IsOwn hash id) e
        → IsOwn hash id c.tables
        → Closes hash e c (poll clock a device_code at token_id random now later)
    unfolding poll answer_poll is_delivered running
    poll-Closes false device_code at token_id random now later id c q o own = record {
      apply = λ done. absurd (ground arith);
    }
    poll-Closes true device_code at token_id random now later id c q o own = record {
      apply = λ done.
          let t = e.others c.tick c.tables in
          elim (Bool-cases (e.fails c.tick)) [
            | inl failed ↦ let d = rw failed at done in absurd (ground arith)
            | inr sent ↦ rw sent (
                (found-Closes at token_id random now later id
                    (find_hash (clock.token_hash (str_trim device_code)) t.device_codes)
                    (record { tables = t; tick = suc c.tick }) o (o c.tick c.tables own)
                    (λ r found.
                      find_hash_own hash id t.device_codes r
                        (subst (λ h. find_hash h t.device_codes ≡ some r) q found)
                        (o c.tick c.tables own))).apply
                  (rw sent at done))
          ];
    }

  -- Where a device code has one row, of the id `id`, and other requests keep that and never undo that it
  -- was denied or collected, two polls one after the other do not both deliver a token, whichever
  -- statements fail.
  pub poll_once :
      (device_code : String) (id : ℕ) (e : Env)
      → let hash = clock.token_hash (str_trim device_code) in
        IsStable (IsOwn hash id) e
        → IsStable (IsClosed hash) e
        → (a : Bool) (at token_id : ℕ) (random : String) (now later : ℕ) (b : Bool)
          (at' token_id' : ℕ) (random' : String) (now' later' : ℕ) (c : Conn)
        → IsOwn hash id c.tables
        → let first = poll clock a device_code at token_id random now later e c in
          let second = poll clock b device_code at' token_id' random' now' later' e first.1 in
          (is_delivered first.0 && is_delivered second.0) ≡ false
  poll_once device_code id e o s a at token_id random now later b at' token_id' random' now' later'
        c own =
      let hash = clock.token_hash (str_trim device_code) in
      let first = poll clock a device_code at token_id random now later e c in
      elim (Bool-cases (is_delivered first.0)) [
        | inl done ↦
            let closes =
              poll-Closes hash e s a device_code at token_id random now later id c refl o own in
            rw done (
              poll_closed b device_code at' token_id' random' now' later' e s first.1
                (closes.apply done))
        | inr refused ↦ rw refused refl
      ]
