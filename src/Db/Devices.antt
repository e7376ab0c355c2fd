-- ===== src/Db/Devices.antt =====
-- hub/db.py, "Devices". `hash_token` is a parameter; `now` is the clock.
pub mod Ownership
pub mod Credentials
use vortex_portal.Base.{
  ℕ, ◌+◌, Bool, true, ◌&&◌, not, Option, none, some, List, [], ◌∷◌, ◌++◌, if◌then◌else◌, ltb, ◌==◌,
  is_some,
}
use vortex_portal.Base.Text.{Text, text_eq}
use vortex_portal.Base.Table.{find, select, delete, update, matches}
use vortex_portal.Base.Sort.{order_by}
use vortex_portal.Db.Schema.{
  Db, Device, DeviceLock, TheftState, TheftMedia, DevicePresence, Result, ok, integrity_error,
  user_exists, device_exists,
}

-- WHERE id = ?
abbrev pub has_id : Text → Device → Bool
has_id device_id d = text_eq d.id device_id

-- WHERE id = ? AND owner_id = ?
abbrev pub is_owned : Text → ℕ → Device → Bool
is_owned device_id owner_id d = text_eq d.id device_id && d.owner_id == owner_id

unfoldable pub list_devices : Db → ℕ → List Device
list_devices db owner_id =
    order_by (λ (a b : Device). ltb b.paired_at a.paired_at)
      (select (λ (d : Device). d.owner_id == owner_id) db.devices)

unfoldable pub get_device : Db → Text → Option Device
get_device db device_id = find (has_id device_id) db.devices

unfoldable pub get_device_for_user : Db → Text → ℕ → Option Device
get_device_for_user db device_id owner_id = find (is_owned device_id owner_id) db.devices

unfoldable pub update_device_name : Db → Text → ℕ → Text → Bool × Db
update_device_name db device_id owner_id name = (
  ltb 0 (matches (is_owned device_id owner_id) db.devices),
  record db {
    devices = update (is_owned device_id owner_id) (λ d. record d { name = name }) db.devices;
  },
)

unfoldable pub update_device : Db → Text → ℕ → Text → Option Text → Bool × Db
update_device db device_id owner_id name characteristics = (
  ltb 0 (matches (is_owned device_id owner_id) db.devices),
  record db {
    devices =
        update (is_owned device_id owner_id)
          (λ d. record d { name = name; characteristics = characteristics }) db.devices;
  },
)

-- ON DELETE CASCADE, on a connection that enforces foreign keys: the rows of the four tables whose
-- `device_id` refers to the device go with it.
unfoldable pub cascade : Db → Text → Db
cascade db device_id = if not db.foreign_keys then db else record db {
  device_locks = delete (λ (r : DeviceLock). text_eq r.device_id device_id) db.device_locks;
  theft_state = delete (λ (r : TheftState). text_eq r.device_id device_id) db.theft_state;
  theft_media = delete (λ (r : TheftMedia). text_eq r.device_id device_id) db.theft_media;
  device_presence =
      delete (λ (r : DevicePresence). text_eq r.device_id device_id) db.device_presence;
}

unfoldable pub delete_device : Db → Text → ℕ → Bool × Db
unfolding cascade
delete_device db device_id owner_id =
    let hit = ltb 0 (matches (is_owned device_id owner_id) db.devices) in
    let db' : Db = if hit then cascade db device_id else db in
    (hit, record db' { devices = delete (is_owned device_id owner_id) db.devices })

unfoldable pub touch_device : Db → Text → ℕ → Db
touch_device db device_id now = record db {
  devices = update (has_id device_id) (λ d. record d { last_seen = some now }) db.devices;
}

module _ (hash_token : Text → Text) where
  unfoldable pub create_device : Db → Text → ℕ → Text → Text → Option Text → ℕ → Result Db
  create_device db device_id owner_id name token characteristics now =
      if user_exists db owner_id && not (device_exists db device_id)
      then (ok (record db {
        devices =
            db.devices
            ++ (record {
              id = device_id;
              owner_id = owner_id;
              name = name;
              token_hash = hash_token token;
              paired_at = now;
              last_seen = none;
              characteristics = characteristics;
            })
              ∷ [];
      }))
      else integrity_error

  abbrev pub check_token : Text → Option Device → Option Device
  check_token token none = none
  check_token token (some d) = if text_eq d.token_hash (hash_token token) then some d else none

  unfoldable pub authenticate_device : Db → Text → Text → Option Device
  unfolding get_device
  authenticate_device db device_id token = check_token token (get_device db device_id)
