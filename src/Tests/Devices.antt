-- ===== src/Tests/Devices.antt =====
-- Examples of machines.
use yunova.Base.{
  true, ◌≡◌, refl, false, none, some, [], ◌∷◌, arith, ℕ, suc, zero, ◌+◌, List, String,
}
use yunova.Base.Text.{codes, same, str_trim}
use yunova.Schema.{Device, Session}
use yunova.Db.{Conn, quiet, running}
use yunova.Devices.{
  bind_device, device_for_token, bound, changed, disconnect, is_online, revoke_device, count_owned,
  find_machine, find_device, hash_elsewhere, count_live, find_existing, bind_or_insert, bind_known,
  rebind_device, update_owned, set_owned, rebound, answer_rebound, max_devices_per_user,
}
use yunova.Devices.Rotation.{bind_device-rotates}
use yunova.Devices.Removal.{revoke_device-removes}
use yunova.AgentToken.{Clock}
use yunova.Auth
use yunova.Devices.Handshake.{Fresh, attach_by, attach, signed_out}
use yunova.Devices.Handshake.Logout.{attach-delete_session}
use yunova.Tests.Data.{order, tables, shaky}

-- A hash that hides nothing.
abbrev plain : String → String
plain t = t

abbrev laptop : Device
laptop = record {
  id = 4;
  user_id = 1;
  name = codes "laptop";
  token_hash = "ynd_old";
  platform = none;
  fingerprint = some (codes "f4");
  revoked = 1;
  last_seen_at = none;
}

abbrev office : Conn
office = record { tables = record (tables order) { devices = laptop ∷ [] }; tick = 0 }

laptop_known : find_machine 1 (codes "f4") (laptop ∷ []) ≡ some 4
unfolding find_machine same
laptop_known = refl

token_new : find_device "ynd_new" (laptop ∷ []) ≡ none
unfolding find_device
token_new = refl

token_own : hash_elsewhere "ynd_old" 4 1 (laptop ∷ []) ≡ false
unfolding hash_elsewhere
token_own = refl

laptop_owned : count_owned 4 1 (laptop ∷ []) ≡ 1
unfolding count_owned
laptop_owned = refl

bind_device-rotates_example :
    let done =
      bind_device plain 9 "new" 1 (codes "laptop") none (some (codes "f4")) "now" quiet office in
    (done.0 ≡ some (bound 4 "ynd_new" false))
    × ((device_for_token plain "ynd_new" quiet done.1).0 ≡ some (some (4, 1)))
    × ((device_for_token plain "ynd_old" quiet done.1).0 ≡ some none)
bind_device-rotates_example =
    bind_device-rotates plain 9 1 4 "new" "ynd_old" (codes "laptop") (codes "f4") none "now" office
      laptop_known token_new token_own refl

revoke_device-removes_example :
    let done = revoke_device 1 4 (3 ∷ 4 ∷ []) quiet office in
    (done.0 ≡ some (changed, disconnect 4 changed (3 ∷ 4 ∷ [])))
    × (is_online 4 (disconnect 4 changed (3 ∷ 4 ∷ [])) ≡ false)
    × ((device_for_token plain "ynd_old" quiet done.1).0 ≡ some none)
revoke_device-removes_example =
    revoke_device-removes plain 1 4 (3 ∷ 4 ∷ []) "ynd_old" office token_own
      (λ e. absurd (omega (arith, laptop_owned)))

-- The user has as many machines as the limit, and binds one again that was removed: it is one more.
abbrev others : ℕ → List Device
others zero = []
others (suc n) =
    record laptop { id = 100 + n; token_hash = "other"; fingerprint = none; revoked = 0 } ∷ others n

abbrev full : Conn
full = record { tables = record (tables order) { devices = laptop ∷ others 20 }; tick = 0 }

full_at_limit : count_live 1 full.tables.devices ≡ max_devices_per_user
unfolding count_live
full_at_limit = refl

limit_passed :
    count_live 1
      (bind_device plain 9 "new" 1
        (codes "laptop")
        none
        (some (codes "f4"))
        "now"
        quiet
        full).1.tables.devices
    ≡ 21
unfolding count_live bind_device find_existing bind_or_insert bind_known rebind_device update_owned
    set_owned rebound answer_rebound hash_elsewhere find_machine same running
limit_passed = refl

-- A clock that reads every instant as the same, and a hash that hides nothing.
abbrev clock : Clock
clock = record {
  token_hash = plain;
  to_rfc3339 = λ n. "1970-01-31T00:00:00Z";
  parse_from_rfc3339 = λ s. some 2_592_000_000_000_000;
}

abbrev session : Session
session = record { token_hash = "t1"; user_id = 1; expires_at = "1970-01-31T00:00:00Z" }

abbrev signed_in : Conn
signed_in = record { tables = record (tables order) { sessions = session ∷ [] }; tick = 0 }

attach-delete_session_example :
    let fresh : Fresh = record { id = 9; random = "new"; now_expr = "now" } in
    let ended = (Auth.delete_session clock (str_trim " t1") shaky signed_in).1 in
    attach clock plain
      (λ p h. false)
      true
      fresh
      5
      none
      (attach_by " t1" (codes "laptop") none none)
      shaky
      ended
    ≡ (some signed_out, (Auth.user_for_token clock 5 (str_trim " t1") shaky ended).1)
attach-delete_session_example =
    attach-delete_session clock plain (λ p h. false)
      (record { id = 9; random = "new"; now_expr = "now" }) 5 none " t1" (codes "laptop") none none
      shaky (λ n t h. h) signed_in refl
