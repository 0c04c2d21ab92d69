-- ===== src/Invites.antt =====
-- src/invites.rs, and the rewards for an invite in `register` of src/main.rs.
pub mod Codes
pub mod Claims
use yunova.Base.{
  ℕ, zero, suc, ◌+◌, ◌-◌, ◌%◌, ◌&&◌, ◌||◌, Bool, true, false, not, Option, none, some, List, [],
  ◌∷◌, map, String, if◌then◌else◌, ◌==◌, leb, length,
}
use Prim.Native.String
use yunova.Base.Int.{ℤ, pos, ltb_ℤ}
use yunova.Base.Text.{codes, same}
use yunova.Schema.{Tables, User}
use yunova.Db.{Action, pure, fail, statement, attempt, select, ◌>>=◌, ◌>>◌}
use yunova.Quota.LedgerMeta
use yunova.Quota.Pricing.{default_invite_grant}
use yunova.Quota.Settings.{get_setting_i64}
use yunova.Quota.Accounts.{ensure_account, grant}

abbrev pub invite_alphabet : List ℕ
invite_alphabet = codes "ABCDEFGHJKMNPQRSTUVWXYZ23456789"

abbrev pub max_gen_attempts : ℕ
max_gen_attempts = 8

abbrev pub nth : ℕ → List ℕ → ℕ
nth n [] = 0
nth zero (c ∷ cs) = c
nth (suc n) (c ∷ cs) = nth n cs

-- `bytes` are the random bytes.
unfoldable pub gen_code : List ℕ → List ℕ
gen_code [] = []
gen_code (b ∷ bytes) = nth (b % length invite_alphabet) invite_alphabet ∷ gen_code bytes

abbrev pub is_lower : ℕ → Bool
is_lower c = leb b'a' c && leb c b'z'

abbrev pub is_upper_or_digit : ℕ → Bool
is_upper_or_digit c = leb b'A' c && leb c b'Z' || leb b'0' c && leb c b'9'

abbrev pub to_upper : ℕ → ℕ
to_upper c = if is_lower c then c - 32 else c

unfoldable pub normalize_code : List ℕ → List ℕ
normalize_code [] = []
normalize_code (c ∷ cs) =
    let rest = normalize_code cs in
    if is_lower c || is_upper_or_digit c then to_upper c ∷ rest else rest

-- `SELECT invite_code FROM users WHERE id = ?`
unfoldable pub find_code : ℕ → List User → Option (Option (List ℕ))
find_code uid [] = none
find_code uid (u ∷ us) = if u.id == uid then some u.invite_code else find_code uid us

abbrev pub has_code : List ℕ → Option (List ℕ) → Bool
has_code code none = false
has_code code (some c) = same c code

-- `SELECT id FROM users WHERE invite_code = ?`
unfoldable pub find_inviter : List ℕ → List User → Option ℕ
find_inviter code [] = none
find_inviter code (u ∷ us) = if has_code code u.invite_code then some u.id else find_inviter code us

-- What an `UPDATE` of a unique column does: rows, or a violation.
pub data Written : Type 0 where
  rows : ℕ → Written
  violated : Written

abbrev pub lacks_code : Option (List ℕ) → Bool
lacks_code none = true
lacks_code (some c) = length c == 0

unfoldable pub put_code : ℕ → List ℕ → List User → List User
put_code uid code [] = []
put_code uid code (u ∷ us) =
    (if u.id == uid && lacks_code u.invite_code then record u { invite_code = some code } else u)
    ∷ put_code uid code us

unfoldable pub count_lacking : ℕ → List User → ℕ
count_lacking uid [] = 0
count_lacking uid (u ∷ us) =
    let rest = count_lacking uid us in
    if u.id == uid && lacks_code u.invite_code then suc rest else rest

is_taken : Option ℕ → Bool
is_taken none = false
is_taken (some id) = true

unfoldable pub write_code : ℕ → List ℕ → Tables → Option (Written × Tables)
unfolding is_taken
write_code uid code t =
    if count_lacking uid t.users == 0
    then some (rows 0, t)
    else if is_taken (find_inviter code t.users)
    then some (violated, t)
    else some (rows (count_lacking uid t.users), record t { users = put_code uid code t.users })

existing_code : Option (Option (List ℕ)) → Option (List ℕ)
existing_code none = none
existing_code (some none) = none
existing_code (some (some c)) = if length c == 0 then none else some c

-- The loop of `ensure_code`, with the attempts that are left; `draw` gives the bytes of each.
unfoldable pub gen_loop : (ℕ → List ℕ) → ℕ → ℕ → Action (List ℕ)
unfolding existing_code
gen_loop draw uid zero = fail
gen_loop draw uid (suc n) = do
  let code = gen_code (draw n)
  r ← statement (write_code uid code)
  elim r [
    | violated ↦ gen_loop draw uid n
    | rows k ↦ if not (k == 0) then pure code else do
      row ← select (λ t. find_code uid t.users)
      elim (existing_code row) [ some c ↦ pure c | none ↦ gen_loop draw uid n ]
  ]

code_or_loop : (ℕ → List ℕ) → ℕ → Option (Option (List ℕ)) → Action (List ℕ)
unfolding existing_code
code_or_loop draw uid none = fail
code_or_loop draw uid (some c) = elim (existing_code (some c)) [
  | some d ↦ pure d
  | none ↦ gen_loop draw uid max_gen_attempts
]

unfoldable pub ensure_code : (ℕ → List ℕ) → ℕ → Action (List ℕ)
unfolding code_or_loop
ensure_code draw uid = do row ← select (λ t. find_code uid t.users); code_or_loop draw uid row

not_self : ℕ → Option (Option ℕ) → Option ℕ
not_self uid none = none
not_self uid (some none) = none
not_self uid (some (some id)) = if id == uid then none else some id

unfoldable pub resolve_inviter : List ℕ → ℕ → Action (Option ℕ)
unfolding not_self
resolve_inviter code uid = if length (normalize_code code) == 0 then pure none else do
  row ← attempt (select (λ t. find_inviter (normalize_code code) t.users))
  pure (not_self uid row)

abbrev pub is_unclaimed : Option ℕ → Bool
is_unclaimed none = true
is_unclaimed (some id) = false

unfoldable pub put_inviter : ℕ → ℕ → List User → List User
put_inviter uid inviter [] = []
put_inviter uid inviter (u ∷ us) =
    (if u.id == uid && is_unclaimed u.invited_by then record u { invited_by = some inviter } else u)
    ∷ put_inviter uid inviter us

unfoldable pub count_unclaimed : ℕ → List User → ℕ
count_unclaimed uid [] = 0
count_unclaimed uid (u ∷ us) =
    let rest = count_unclaimed uid us in
    if u.id == uid && is_unclaimed u.invited_by then suc rest else rest

-- `UPDATE users SET invited_by = ? WHERE id = ? AND invited_by IS NULL`
unfoldable pub claim_row : ℕ → ℕ → Tables → Option (Bool × Tables)
claim_row uid inviter t =
    some
      (not (count_unclaimed uid t.users == 0), record t { users = put_inviter uid inviter t.users })

unfoldable pub set_invited_by : ℕ → ℕ → Action Bool
set_invited_by uid inviter = statement (claim_row uid inviter)

or_false : Option Bool → Bool
or_false none = false
or_false (some b) = b

-- The rewards of `register`, once the inviter is known.
unfoldable pub reward : ℕ → String → ℕ → Action (Unit {0})
unfolding or_false
reward uid username inviter = do
  claim ← attempt (set_invited_by uid inviter)
  inviter_grant ← get_setting_i64 "invite_grant_inviter" default_invite_grant
  invitee_grant ← get_setting_i64 "invite_grant_invitee" default_invite_grant
  if or_false claim && ltb_ℤ (pos 0) inviter_grant
      then attempt (
          grant inviter inviter_grant (String.◌++◌ "invite_reward_inviter:" username)
            LedgerMeta.grant)
      else pure none
  if or_false claim && ltb_ℤ (pos 0) invitee_grant
      then attempt (grant uid invitee_grant "invite_reward_invitee" LedgerMeta.grant)
      else pure none
  pure tt

reward_if_any : ℕ → String → Option ℕ → Action (Unit {0})
reward_if_any uid username none = pure tt
reward_if_any uid username (some inviter) = reward uid username inviter

-- `register` on a code that the new user gives.
unfoldable pub redeem : ℕ → String → List ℕ → Action (Unit {0})
unfolding reward_if_any
redeem uid username raw = do inviter ← resolve_inviter raw uid; reward_if_any uid username inviter

redeem_if_any : ℕ → String → Option (List ℕ) → Action (Unit {0})
redeem_if_any uid username none = pure tt
redeem_if_any uid username (some raw) = redeem uid username raw

-- `register` from the new row of `users` to the session.
unfoldable pub welcome : (ℕ → List ℕ) → ℕ → String → Option (List ℕ) → Action (Unit {0})
unfolding redeem_if_any
welcome draw uid username code = do
  attempt (ensure_account uid)
  attempt (ensure_code draw uid)
  redeem_if_any uid username code
