-- ===== src/Devices/Removal.antt =====
-- A machine that the user removed, and the number of machines.
use yunova.Base.{
  ℕ, ◌≡◌, ◌≢◌, refl, ap, false, Option, none, some, List, [], ◌∷◌, String, arith, inl, inr,
  Bool-cases, ◌==◌,
}
use yunova.Schema.{Device}
use yunova.Db.{Conn, quiet, running}
use yunova.Devices.{
  find_device, count_owned, set_owned, hash_elsewhere, update_owned, changed, not_found,
  answer_changed, revoke_device, disconnect, remove, is_online, accept_device, device_for_token,
  is_device_token,
}

accept_revoked :
    (hash : String) (id uid : ℕ) (ds : List Device)
    → hash_elsewhere hash id uid ds ≡ false
    → accept_device (find_device hash (set_owned id uid (λ d. record d { revoked = 1 }) ds)) ≡ none
unfolding find_device hash_elsewhere set_owned accept_device
accept_revoked hash id uid [] h = refl
accept_revoked hash id uid (d ∷ ds) h = ground (arith, accept_revoked hash id uid ds)

removed : (id : ℕ) (online : List ℕ) → is_online id (remove id online) ≡ false
unfolding is_online remove
removed id [] = refl
removed id (j ∷ js) = ground (arith, removed id js)

disconnected : (id : ℕ) (online : List ℕ) → is_online id (disconnect id changed online) ≡ false
unfolding disconnect
disconnected id online = elim (Bool-cases (is_online id online)) [
  | inl y ↦ rw y (removed id online)
  | inr n ↦ rw n n
]

unowned_same :
    (id uid : ℕ) (f : Device → Device) (ds : List Device)
    → count_owned id uid ds ≡ 0
    → set_owned id uid f ds ≡ ds
unfolding count_owned set_owned
unowned_same id uid f [] h = refl
unowned_same id uid f (d ∷ ds) h = ground (arith, unowned_same id uid f ds)

nonzero : (n : ℕ) → n ≢ 0 → (n == 0) ≡ false
nonzero n h = ground arith

module _ (token_hash : String → String) where
  refused :
      (token : String) (c : Conn)
      → accept_device (find_device (token_hash token) c.tables.devices) ≡ none
      → (device_for_token token_hash token quiet c).0 ≡ some none
  unfolding device_for_token running
  refused token c h = elim (Bool-cases (is_device_token token)) [
    | inl y ↦ rw y (ap (λ (r : Option (ℕ × ℕ)). some r) h)
    | inr n ↦ rw n refl
  ]

  -- Without failures and other requests: a user who removes a machine of their own is told that it is
  -- removed, it is connected no more, and a token whose hash only its row has is refused.
  pub revoke_device-removes :
      (uid id : ℕ) (online : List ℕ) (token : String) (c : Conn)
      → hash_elsewhere (token_hash token) id uid c.tables.devices ≡ false
      → count_owned id uid c.tables.devices ≢ 0
      → let done = revoke_device uid id online quiet c in
        (done.0 ≡ some (changed, disconnect id changed online))
        × (is_online id (disconnect id changed online) ≡ false)
        × ((device_for_token token_hash token quiet done.1).0 ≡ some none)
  unfolding revoke_device update_owned answer_changed running
  revoke_device-removes uid id online token c only owned = (
    rw (nonzero (count_owned id uid c.tables.devices) owned) refl,
    disconnected id online,
    refused token _ (accept_revoked (token_hash token) id uid c.tables.devices only),
  )

-- One who names a machine that is not theirs is told that there is none, and nothing changes.
revoke_device_foreign :
    (uid id : ℕ) (online : List ℕ) (c : Conn)
    → count_owned id uid c.tables.devices ≡ 0
    → let done = revoke_device uid id online quiet c in
      (done.0 ≡ some (not_found, online)) × (done.1.tables ≡ c.tables)
unfolding revoke_device update_owned answer_changed disconnect running
revoke_device_foreign uid id online c foreign =
    rw (foreign, unowned_same id uid (λ d. record d { revoked = 1 }) c.tables.devices foreign)
      (refl, refl)
