-- ===== src/Devices.antt =====
-- src/agent_device.rs: the machines that a user's desktop client binds to the account. The hash is a
-- parameter, and so are the new token's random text, the database's clock and the id of a new row.
pub mod Rotation
pub mod Handshake
pub mod Removal
use yunova.Base.{
  ℕ, suc, Bool, true, false, not, ◌&&◌, ◌||◌, Option, none, some, List, [], ◌∷◌, String,
  if◌then◌else◌, ◌==◌, leb, length, any,
}
use Prim.Native.String
use text.Mathlib.Text.{◌==◌ as str_eq}
use yunova.Base.Text.{codes, same, strip_prefix, take, trim}
use yunova.Schema.{Tables, Device}
use yunova.Db.{Action, pure, statement, attempt, select, fetch_one, ◌>>=◌, ◌>>◌}

abbrev pub device_prefix : String
device_prefix = "ynd_"

abbrev pub max_devices_per_user : ℕ
max_devices_per_user = 20

abbrev pub new_device_token : String → String
new_device_token random = String.◌++◌ device_prefix random

unfoldable pub is_device_token : String → Bool
is_device_token token = elim (strip_prefix (codes device_prefix) (codes token)) [
  | none ↦ false
  | some rest ↦ true
]

unfoldable pub filled : List ℕ → Option (List ℕ)
filled cs = if length cs == 0 then none else some cs

abbrev or_default : Option (List ℕ) → List ℕ
or_default none = codes "我的电脑"
or_default (some cs) = cs

unfoldable pub clean_name : Option (List ℕ) → List ℕ
clean_name none = take 60 (or_default none)
clean_name (some raw) = take 60 (or_default (filled (trim raw)))

abbrev capped : Option (List ℕ) → Option (List ℕ)
capped none = none
capped (some f) = some (take 128 f)

unfoldable pub clean_fingerprint : Option (List ℕ) → Option (List ℕ)
clean_fingerprint none = none
clean_fingerprint (some raw) = capped (filled (trim raw))

abbrev pub put_devices : List Device → Tables → Tables
put_devices ds t = record t { devices = ds }

-- `WHERE token_hash = ?`, which is unique.
unfoldable pub find_device : String → List Device → Option Device
find_device hash [] = none
find_device hash (d ∷ ds) = if str_eq d.token_hash hash then some d else find_device hash ds

abbrev pub has_fingerprint : List ℕ → Option (List ℕ) → Bool
has_fingerprint fp none = false
has_fingerprint fp (some f) = same f fp

-- `SELECT id … WHERE user_id = ? AND fingerprint = ?`, which is unique.
unfoldable pub find_machine : ℕ → List ℕ → List Device → Option ℕ
find_machine uid fp [] = none
find_machine uid fp (d ∷ ds) =
    let rest = find_machine uid fp ds in
    if d.user_id == uid && has_fingerprint fp d.fingerprint then some d.id else rest

unfoldable pub count_live : ℕ → List Device → ℕ
count_live uid [] = 0
count_live uid (d ∷ ds) =
    let rest = count_live uid ds in if d.user_id == uid && d.revoked == 0 then suc rest else rest

-- `WHERE id = ? AND user_id = ?`
abbrev pub is_owned : ℕ → ℕ → Device → Bool
is_owned id uid d = d.id == id && d.user_id == uid

unfoldable pub count_owned : ℕ → ℕ → List Device → ℕ
count_owned id uid [] = 0
count_owned id uid (d ∷ ds) =
    let rest = count_owned id uid ds in if is_owned id uid d then suc rest else rest

unfoldable pub set_owned : ℕ → ℕ → (Device → Device) → List Device → List Device
set_owned id uid f [] = []
set_owned id uid f (d ∷ ds) =
    let rest = set_owned id uid f ds in if is_owned id uid d then f d ∷ rest else d ∷ rest

-- Another row has the hash.
unfoldable pub hash_elsewhere : String → ℕ → ℕ → List Device → Bool
hash_elsewhere hash id uid [] = false
hash_elsewhere hash id uid (d ∷ ds) =
    str_eq d.token_hash hash && not (is_owned id uid d) || hash_elsewhere hash id uid ds

-- `UPDATE … WHERE id = ? AND user_id = ?`, with the number of rows.
unfoldable pub update_owned : ℕ → ℕ → (Device → Device) → Tables → Option (ℕ × Tables)
update_owned id uid f t =
    some (count_owned id uid t.devices, put_devices (set_owned id uid f t.devices) t)

abbrev pub is_some : {A : Type 0} → Option A → Bool
is_some none = false
is_some (some a) = true

abbrev pub is_bound : ℕ → Option (List ℕ) → List Device → Bool
is_bound uid none ds = false
is_bound uid (some fp) ds = is_some (find_machine uid fp ds)

-- `INSERT INTO agent_devices`: the hash is unique, and a user's fingerprint.
unfoldable pub insert_device : Device → Tables → Option (Unit {0} × Tables)
insert_device d t =
    if is_some (find_device d.token_hash t.devices) || is_bound d.user_id d.fingerprint t.devices
    then none
    else some (tt, put_devices (d ∷ t.devices) t)

-- The row that `bind_device` makes of a known machine's.
unfoldable pub rebound : String → List ℕ → Option String → String → Device → Device
rebound hash name platform now d = record d {
  token_hash = hash;
  name = name;
  platform = platform;
  revoked = 0;
  last_seen_at = some now;
}

-- `UPDATE` of the row, which the unique hash refuses where another row has it.
unfoldable pub rebind_device : ℕ → ℕ → String → (Device → Device) → Tables → Option (ℕ × Tables)
rebind_device id uid hash f t =
    if hash_elsewhere hash id uid t.devices then none else update_owned id uid f t

-- The answer of `bind_device`: the id, the token, and whether the machine is new.
pub data Bound : Type 0 where
  bound : ℕ → String → Bool → Bound
  too_many bind_failed : Bound

-- The answers of `rename_device` and `revoke_device`.
pub data Changed : Type 0 where
  changed not_found failed : Changed

unfoldable pub answer_rebound : ℕ → String → Option ℕ → Bound
answer_rebound id token none = bind_failed
answer_rebound id token (some rows) = bound id token false

unfoldable pub answer_new : String → Option ℕ → Bound
answer_new token none = bind_failed
answer_new token (some id) = bound id token true

abbrev or_zero : Option ℕ → ℕ
or_zero none = 0
or_zero (some n) = n

abbrev flatten : {A : Type 0} → Option (Option A) → Option A
flatten none = none
flatten (some o) = o

abbrev id_of : Option Device → Option ℕ
id_of none = none
id_of (some d) = some d.id

unfoldable pub find_existing : ℕ → Option (List ℕ) → Action (Option ℕ)
find_existing uid none = pure none
find_existing uid (some fp) = do
  row ← attempt (select (λ t. find_machine uid fp t.devices))
  pure (flatten row)

unfoldable pub read_new : String → String → Option (Unit {0}) → Action Bound
read_new hash token none = pure bind_failed
read_new hash token (some u) = do
  id ← attempt (fetch_one (λ t. id_of (find_device hash t.devices)))
  pure (answer_new token id)

-- `answer_changed` is shared by the two updates.
unfoldable pub answer_changed : Option ℕ → Changed
answer_changed none = failed
answer_changed (some n) = if n == 0 then not_found else changed

unfoldable pub rename_device : ℕ → ℕ → List ℕ → Action Changed
rename_device uid id name = do
  rows ← attempt (statement (update_owned id uid (λ d. record d { name = clean_name (some name) })))
  pure (answer_changed rows)

-- The registry of the machines that are connected, by their ids.
unfoldable pub remove : ℕ → List ℕ → List ℕ
remove id [] = []
remove id (j ∷ js) = let rest = remove id js in if j == id then rest else j ∷ rest

unfoldable pub is_online : ℕ → List ℕ → Bool
is_online id online = any (λ j. j == id) online

unfoldable pub disconnect : ℕ → Changed → List ℕ → List ℕ
disconnect id changed online = if is_online id online then remove id online else online
disconnect id _ online = online

-- The answer, and the machines that are connected afterwards.
unfoldable pub revoke_device : ℕ → ℕ → List ℕ → Action (Changed × List ℕ)
revoke_device uid id online = do
  rows ← attempt (statement (update_owned id uid (λ d. record d { revoked = 1 })))
  pure (answer_changed rows, disconnect id (answer_changed rows) online)

unfoldable pub accept_device : Option Device → Option (ℕ × ℕ)
accept_device none = none
accept_device (some d) = if d.revoked == 0 then some (d.id, d.user_id) else none

module _ (token_hash : String → String) where
  unfoldable pub bind_known : ℕ → String → List ℕ → Option String → String → ℕ → Action Bound
  bind_known uid token name platform now id = do
    rows ← attempt (
        statement
          (rebind_device id uid (token_hash token) (rebound (token_hash token) name platform now)))
    pure (answer_rebound id token rows)

  unfoldable pub bind_new : ℕ → String → Device → Action Bound
  bind_new uid token d = do
    live ← attempt (select (λ t. count_live uid t.devices))
    if leb max_devices_per_user (or_zero live)
        then pure too_many
        else do done ← attempt (statement (insert_device d)); read_new (token_hash token) token done

  unfoldable pub new_device :
      ℕ → ℕ → String → List ℕ → Option String → Option (List ℕ) → String → Device
  new_device id uid token name platform fingerprint now = record {
    id = id;
    user_id = uid;
    name = name;
    token_hash = token_hash token;
    platform = platform;
    fingerprint = fingerprint;
    revoked = 0;
    last_seen_at = some now;
  }

  unfoldable pub bind_or_insert :
      ℕ → ℕ → String → List ℕ → Option String → Option (List ℕ) → String → Option ℕ → Action Bound
  bind_or_insert new_id uid token name platform fp now (some id) =
      bind_known uid token name platform now id
  bind_or_insert new_id uid token name platform fp now none =
      bind_new uid token (new_device new_id uid token name platform fp now)

  unfoldable pub bind_device :
      ℕ → String → ℕ → List ℕ → Option String → Option (List ℕ) → String → Action Bound
  bind_device new_id random uid name platform fp now = do
    existing ← find_existing uid fp
    bind_or_insert new_id uid (new_device_token random) name platform fp now existing

  unfoldable pub device_for_token : String → Action (Option (ℕ × ℕ))
  device_for_token token = if not (is_device_token token) then pure none else do
    row ← attempt (select (λ t. find_device (token_hash token) t.devices))
    pure (accept_device (flatten row))
