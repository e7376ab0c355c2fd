-- ===== src/Db/Devices/Ownership.antt =====
-- hub/db.py, "Devices": only the owner renames, edits or deletes a device.
use vortex_portal.Base.{ℕ, ◌≡◌, true, false, is_some, Option, none, some, arith, ◌∙◌, ap}
use vortex_portal.Base.Text.{Text}
use vortex_portal.Base.Table.{matches-find, update_unmatched, delete_unmatched, matches_unseen}
use vortex_portal.Db.Schema.{Db, Device}
use vortex_portal.Db.Devices.{
  is_owned, get_device_for_user, update_device_name, update_device, delete_device,
}

-- A user to whom a device does not belong, or who names one that is not there, can neither rename,
-- edit nor delete it: the three calls answer no and leave the database as it was.
pub foreign_device_untouched :
    (db : Db) (device_id name : Text) (characteristics : Option Text) (owner_id : ℕ)
    → get_device_for_user db device_id owner_id ≡ none
    → (update_device_name db device_id owner_id name ≡ (false, db))
      × (update_device db device_id owner_id name characteristics ≡ (false, db))
      × (delete_device db device_id owner_id ≡ (false, db))
unfolding get_device_for_user update_device_name update_device delete_device
foreign_device_untouched db device_id name characteristics owner_id h =
    let p = is_owned device_id owner_id in
    let n = matches_unseen p db.devices h in
    (
      ground (arith, n, update_unmatched p (λ (d : Device). record d { name = name }) db.devices h),
      ground (
        arith,
        n,
        update_unmatched p
            (λ (d : Device). record d { name = name; characteristics = characteristics }) db.devices
            h,
      ),
      ground (arith, n, delete_unmatched p db.devices h),
    )

-- The owner's deletion answers yes.
pub delete_device_owned :
    (db : Db) (device_id : Text) (owner_id : ℕ) (d : Device)
    → get_device_for_user db device_id owner_id ≡ some d
    → (delete_device db device_id owner_id).0 ≡ true
unfolding get_device_for_user delete_device
delete_device_owned db device_id owner_id d h =
    matches-find (is_owned device_id owner_id) db.devices ∙ ap is_some h
