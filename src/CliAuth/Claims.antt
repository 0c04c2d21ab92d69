-- ===== src/CliAuth/Claims.antt =====
-- The claim of a login in src/cli_auth.rs: what is delivered was claimed, and stays claimed.
use yunova.Base.{
  ℕ, suc, ◌≡◌, refl, Bool, true, false, not, ◌&&◌, ◌||◌, Option, none, some, List, [], ◌∷◌, String,
  if◌then◌else◌, ◌==◌, arith, inl, inr, Bool-cases,
}
use text.Mathlib.Text.{◌==◌ as str_eq}
use yunova.Schema.{Tables, DeviceCode}
use yunova.Db.{Env, Conn, Action, pure, running}
use yunova.Db.Rules.{
  IsStable, Keeps, pure-Keeps, if-Keeps, bind-Keeps, then-Keeps, attempt-Keeps, select-Keeps,
}
use yunova.AgentToken.{Clock, revoke_by_plaintext}
use yunova.AgentToken.Writes.{mint-Keeps, revoke_by_plaintext-Keeps}
use yunova.CliAuth.{
  find_hash, count_where, set_where, is_some, Polled, is_delivered, claim_code, deliver, claim,
  update_codes, or_zero, put_codes, collect,
}

-- Every row of the device code was denied, or its token was collected.
abbrev pub is_open_at : String → DeviceCode → Bool
is_open_at hash r = str_eq r.device_hash hash && not (is_some r.denied_at || is_some r.consumed_at)

abbrev pub IsClosed : String → Tables → Type 0
IsClosed hash t = count_where (is_open_at hash) t.device_codes ≡ 0

-- Every row of the device code has this id.
abbrev pub is_other_at : String → ℕ → DeviceCode → Bool
is_other_at hash id r = str_eq r.device_hash hash && not (r.id == id)

abbrev pub IsOwn : String → ℕ → Tables → Type 0
IsOwn hash id t = count_where (is_other_at hash id) t.device_codes ≡ 0

pub find_hash_closed :
    (hash : String) (rs : List DeviceCode) (r : DeviceCode)
    → find_hash hash rs ≡ some r
    → count_where (is_open_at hash) rs ≡ 0
    → (is_some r.denied_at || is_some r.consumed_at) ≡ true
unfolding find_hash count_where
find_hash_closed hash [] r e h = absurd (ground arith)
find_hash_closed hash (x ∷ xs) r e h = ground (arith, find_hash_closed hash xs r)

pub find_hash_own :
    (hash : String) (id : ℕ) (rs : List DeviceCode) (r : DeviceCode)
    → find_hash hash rs ≡ some r
    → count_where (is_other_at hash id) rs ≡ 0
    → r.id ≡ id
unfolding find_hash count_where
find_hash_own hash id [] r e h = absurd (ground arith)
find_hash_own hash id (x ∷ xs) r e h = ground (arith, find_hash_own hash id xs r)

count_where-set_where :
    (hash : String) (id : ℕ) (at token : String) (rs : List DeviceCode)
    → count_where (is_other_at hash id) rs ≡ 0
    → count_where (is_open_at hash) (
        set_where
          (λ r. r.id == id && not (is_some r.consumed_at))
          (λ r. record r { consumed_at = some at; token_hash = some token })
          rs)
      ≡ 0
unfolding count_where set_where
count_where-set_where hash id at token [] h = refl
count_where-set_where hash id at token (r ∷ rs) h =
    ground (arith, count_where-set_where hash id at token rs)

-- An action that delivers has closed the login.
pub record Closes (hash : String) (e : Env) (c : Conn) (m : Action Polled) : Type 0 where
  pub apply : is_delivered (m e c).0 ≡ true → IsClosed hash (m e c).1.tables

module _ {hash : String} {e : Env} {c : Conn} where
  pub refusal-Closes : (p : Polled) → is_delivered (some p) ≡ false → Closes hash e c (pure p)
  unfolding pure
  refusal-Closes p q = record { apply = λ done. absurd (ground arith) }

  pub if-Closes :
      (b : Bool) {m k : Action Polled}
      → Closes hash e c m
      → Closes hash e c k
      → Closes hash e c (if b then m else k)
  if-Closes true h l = h
  if-Closes false h l = l

module _ (clock : Clock) where
  module _ (hash : String) (e : Env) (s : IsStable (IsClosed hash) e) where
    deliver-Keeps :
        (uid : ℕ) (token : String) (claimed : ℕ)
        → Keeps (IsClosed hash) e (deliver clock uid token claimed)
    unfolding deliver
    deliver-Keeps uid token claimed =
        if-Keeps _
          (then-Keeps (revoke_by_plaintext-Keeps clock (IsClosed hash) (λ rs t h. h) token s)
            (pure-Keeps _))
          (bind-Keeps (attempt-Keeps (select-Keeps _ s)) (λ name. pure-Keeps _))

    -- A claim that delivers has closed the login.
    claim_closes :
        (id uid now : ℕ) (token : Option String) (c : Conn)
        → IsStable (IsOwn hash id) e
        → IsOwn hash id c.tables
        → is_delivered (claim clock id uid now token e c).0 ≡ true
        → IsClosed hash (claim clock id uid now token e c).1.tables
    unfolding claim claim_code update_codes or_zero deliver revoke_by_plaintext is_delivered running
    claim_closes id uid now none c o own done = absurd (ground arith)
    claim_closes id uid now (some token) c o own done = elim (Bool-cases (e.fails c.tick)) [
      | inl failed ↦ let d = rw failed at done in absurd (ground arith)
      | inr sent ↦
          let t = e.others c.tick c.tables in
          rw sent (
            (deliver-Keeps uid token _).apply
              (record {
                tables =
                    put_codes
                      (set_where (λ r. r.id == id && not (is_some r.consumed_at))
                        (λ r. record r {
                          consumed_at = some (clock.to_rfc3339 now);
                          token_hash = some (clock.token_hash token);
                        })
                        t.device_codes)
                      t;
                tick = suc c.tick;
              })
              (count_where-set_where hash id _ _ t.device_codes (o c.tick c.tables own)))
    ]

    pub collect_closes :
        (id uid token_id : ℕ) (random : String) (now later : ℕ) (c : Conn)
        → IsStable (IsOwn hash id) e
        → IsOwn hash id c.tables
        → is_delivered (collect clock id uid token_id random now later e c).0 ≡ true
        → IsClosed hash (collect clock id uid token_id random now later e c).1.tables
    unfolding collect running
    collect_closes id uid token_id random now later c o own done =
        claim_closes id uid later _ _ o
          ((mint-Keeps clock (IsOwn hash id) (λ rs t h. h) token_id random uid _ _ now o).apply c
            own)
          done
