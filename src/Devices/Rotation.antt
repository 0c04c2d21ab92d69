-- ===== src/Devices/Rotation.antt =====
-- A machine that the user bound before gets a new token, and its old one ends.
use yunova.Base.{
  ℕ, ◌≡◌, ◌≢◌, refl, ap, ◌∙◌, true, false, Option, none, some, List, [], ◌∷◌, String, arith, inl,
  inr, Bool-cases, suc, eq_refl,
}
use text.Mathlib.Text.{◌==◌ as str_eq}
use yunova.Base.Text.{strip_prefix-codes}
use yunova.Schema.{Device}
use yunova.Db.{Conn, quiet, running}
use yunova.Devices.{
  find_device, find_machine, count_owned, set_owned, hash_elsewhere, rebound, rebind_device,
  update_owned, bound, bind_device, bind_or_insert, bind_known, find_existing, answer_rebound,
  accept_device, device_for_token, new_device_token, is_device_token, device_prefix, put_devices,
}

machine_owned :
    (uid : ℕ) (fp : List ℕ) (ds : List Device) (id : ℕ)
    → find_machine uid fp ds ≡ some id
    → count_owned id uid ds ≢ 0
unfolding find_machine count_owned
machine_owned uid fp [] id h = cc
machine_owned uid fp (d ∷ ds) id h = ground (arith, machine_owned uid fp ds id)

new_hash :
    (hash : String) (id uid : ℕ) (ds : List Device)
    → find_device hash ds ≡ none
    → hash_elsewhere hash id uid ds ≡ false
unfolding find_device hash_elsewhere
new_hash hash id uid [] h = refl
new_hash hash id uid (d ∷ ds) h = ground (arith, new_hash hash id uid ds)

module _ (hash : String) (name : List ℕ) (platform : Option String) (now : String)
    (id uid : ℕ) where
  found_rebound :
      (ds : List Device)
      → find_device hash ds ≡ none
      → count_owned id uid ds ≢ 0
      → accept_device (find_device hash (set_owned id uid (rebound hash name platform now) ds))
        ≡ some (id, uid)
  unfolding find_device count_owned set_owned rebound accept_device
  found_rebound [] h k = absurd (k refl)
  found_rebound (d ∷ ds) h k = ground (arith, found_rebound ds, eq_refl hash)

  old_forgotten :
      (old : String) (ds : List Device)
      → str_eq hash old ≡ false
      → hash_elsewhere old id uid ds ≡ false
      → find_device old (set_owned id uid (rebound hash name platform now) ds) ≡ none
  unfolding find_device hash_elsewhere set_owned rebound
  old_forgotten old [] n h = refl
  old_forgotten old (d ∷ ds) n h = ground (arith, old_forgotten old ds)

pub new_device_token-is_device_token :
    (random : String) → is_device_token (new_device_token random) ≡ true
unfolding is_device_token
new_device_token-is_device_token random =
    ap (λ (r : Option (List ℕ)). elim r [ none ↦ false | some rest ↦ true ])
      (strip_prefix-codes device_prefix random)

module _ (token_hash : String → String) where
  -- What a token is answered by the rows.
  pub device_for_token_found :
      (token : String) (c : Conn)
      → is_device_token token ≡ true
      → (device_for_token token_hash token quiet c).0
        ≡ some (accept_device (find_device (token_hash token) c.tables.devices))
  unfolding device_for_token running
  device_for_token_found token c h = rw h refl

  -- A token that no row has is refused.
  device_for_token_unknown :
      (token : String) (c : Conn)
      → find_device (token_hash token) c.tables.devices ≡ none
      → (device_for_token token_hash token quiet c).0 ≡ some none
  unfolding device_for_token accept_device running
  device_for_token_unknown token c h = elim (Bool-cases (is_device_token token)) [
    | inl y ↦ rw (y, h) refl
    | inr n ↦ rw n refl
  ]

  bind_device_known :
      (new_id uid id : ℕ) (random : String) (name fp : List ℕ) (platform : Option String)
      (now : String) (c : Conn)
      → find_machine uid fp c.tables.devices ≡ some id
      → hash_elsewhere (token_hash (new_device_token random)) id uid c.tables.devices ≡ false
      → let token = new_device_token random in
        let row = rebound (token_hash token) name platform now in
        bind_device token_hash new_id random uid name platform (some fp) now quiet c ≡ (
          some (bound id token false),
          record {
            tables = put_devices (set_owned id uid row c.tables.devices) c.tables;
            tick = suc (suc c.tick);
          },
        )
  unfolding bind_device find_existing bind_or_insert bind_known rebind_device update_owned
      answer_rebound running
  bind_device_known new_id uid id random name fp platform now c known alone = rw (known, alone) refl

  -- Without failures and other requests: where a machine is bound that the user bound before, under a new
  -- token whose hash no row has, its row is kept, whether it was revoked or not: the new token stands for it,
  -- and the old one, whose hash only that row had, is refused.
  pub bind_device-rotates :
      (new_id uid id : ℕ) (random old : String) (name fp : List ℕ) (platform : Option String)
      (now : String) (c : Conn)
      → let token = new_device_token random in
        find_machine uid fp c.tables.devices ≡ some id
        → find_device (token_hash token) c.tables.devices ≡ none
        → hash_elsewhere (token_hash old) id uid c.tables.devices ≡ false
        → str_eq (token_hash token) (token_hash old) ≡ false
        → let done = bind_device token_hash new_id random uid name platform (some fp) now quiet c in
          (done.0 ≡ some (bound id token false))
          × ((device_for_token token_hash token quiet done.1).0 ≡ some (some (id, uid)))
          × ((device_for_token token_hash old quiet done.1).0 ≡ some none)
  bind_device-rotates new_id uid id random old name fp platform now c known new only apart =
      let token = new_device_token random in
      let hash = token_hash token in
      let ds = c.tables.devices in
      let owned = machine_owned uid fp ds id known in
      rw
        (bind_device_known new_id uid id random name fp platform now c known
          (new_hash hash id uid ds new))
        (
          refl,
          device_for_token_found token _ (new_device_token-is_device_token random)
              ∙ ap (λ (r : Option (ℕ × ℕ)). some r)
                  (found_rebound hash name platform now id uid ds new owned),
          device_for_token_unknown old _
              (old_forgotten hash name platform now id uid (token_hash old) ds apart only),
        )
