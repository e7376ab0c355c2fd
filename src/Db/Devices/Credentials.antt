-- ===== src/Db/Devices/Credentials.antt =====
-- hub/db.py, "Devices": how a device proves who it is.
use vortex_portal.Base.{
  ℕ, ◌≡◌, ◌≢◌, refl, Option, none, some, arith, if◌then◌else◌, Option-cases, inl, inr,
}
use vortex_portal.Base.Text.{Text, text_eq, text_eq_iff, text_eq_refl}
use vortex_portal.Base.Table.{
  find, find-append_new, find-append_unseen, find-update_same, find-update_absent,
}
use vortex_portal.Db.Schema.{Db, Device, ok, device_exists}
use vortex_portal.Db.Devices.{has_id, create_device, authenticate_device, touch_device}

module _ (hash_token : Text → Text) where
  -- A device that was created is let in with its token and with no token of another hash, and is
  -- then the device of the owner and the name it was created with; no other device is affected.
  pub authenticate_device-create :
      (db db' : Db) (device_id other : Text) (owner_id now : ℕ) (name token guess : Text)
      (characteristics : Option Text)
      → create_device hash_token db device_id owner_id name token characteristics now ≡ ok db'
      → other ≢ device_id
      → (authenticate_device hash_token db' device_id guess ≡ (
          if text_eq (hash_token token) (hash_token guess)
          then some (record {
            id = device_id;
            owner_id = owner_id;
            name = name;
            token_hash = hash_token token;
            paired_at = now;
            last_seen = none;
            characteristics = characteristics;
          })
          else none))
        × (authenticate_device hash_token db' other guess
            ≡ authenticate_device hash_token db other guess)
  unfolding create_device authenticate_device device_exists
  authenticate_device-create db db' device_id other owner_id now name token guess characteristics e
        d =
      let new : Device = record {
        id = device_id;
        owner_id = owner_id;
        name = name;
        token_hash = hash_token token;
        paired_at = now;
        last_seen = none;
        characteristics = characteristics;
      } in
      let absent : find (has_id device_id) db.devices ≡ none = ground arith in
      let shown =
        find-append_new (has_id device_id) db.devices new absent (text_eq_refl device_id) in
      let unseen =
        find-append_unseen (has_id other) db.devices new
          (ground (arith, text_eq_iff device_id other)) in
      (ground (arith, shown), ground (arith, unseen))

  abbrev touched : ℕ → Option Device → Option Device
  touched now none = none
  touched now (some d) = some (record d { last_seen = some now })

  -- A heartbeat changes the time at which a device was last seen, and nothing about who is let in.
  pub authenticate_device-touch :
      (db : Db) (device_id token : Text) (now : ℕ)
      → authenticate_device hash_token (touch_device db device_id now) device_id token
        ≡ touched now (authenticate_device hash_token db device_id token)
  unfolding authenticate_device touch_device
  authenticate_device-touch db device_id token now =
      elim (Option-cases (find (has_id device_id) db.devices)) [
        | inl e ↦ rw (
          e,
          find-update_absent (has_id device_id) (has_id device_id)
              (λ (d : Device). record d { last_seen = some now }) db.devices (λ a h. h) e,
        )
        | inr (d, e) ↦
            rw
              (
                e,
                find-update_same (has_id device_id) (has_id device_id)
                    (λ (d : Device). record d { last_seen = some now }) db.devices (λ a. refl)
                    (λ a h. h) d e,
              )
              (ground arith)
      ]
