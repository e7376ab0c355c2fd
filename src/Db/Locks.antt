-- ===== src/Db/Locks.antt =====
-- hub/db.py, "Device locks": the lease by which one holder at a time uses a device. Times are
-- whole seconds, passed in as `now`; `ttl` is the lease length that `lock_ttl()` gives.
pub mod Interleaved
pub mod Lease
use vortex_portal.Base.{
  ℕ, ◌+◌, Bool, true, false, not, ◌&&◌, Option, none, some, List, [], ◌∷◌, ◌++◌, if◌then◌else◌, ltb,
  ◌==◌,
}
use vortex_portal.Base.Text.{Text, text_eq}
use vortex_portal.Base.Table.{find, select, delete, update, matches}
use vortex_portal.Db.Schema.{
  Db, Device, DeviceLock, Result, ok, integrity_error, ◌>>=◌, device_exists,
}

-- WHERE device_id = ?
abbrev pub locks_device : Text → DeviceLock → Bool
locks_device device_id r = text_eq r.device_id device_id

unfoldable pub get_lock : Db → Text → ℕ → Option DeviceLock
get_lock db device_id now =
    find (λ r. locks_device device_id r && ltb now r.expires_at) db.device_locks

-- INSERT … ON CONFLICT(device_id) DO UPDATE, over the row that the table has for the device
upsert_lock : Db → DeviceLock → Option DeviceLock → Result Db
upsert_lock db new (some old) =
    ok (record db { device_locks = update (locks_device new.device_id) (λ _. new) db.device_locks })
upsert_lock db new none =
    if device_exists db new.device_id
    then ok (record db { device_locks = db.device_locks ++ new ∷ [] })
    else integrity_error

-- Some other holder has the device, and the caller does not force.
abbrev pub blocking_lock : Option DeviceLock → Text → Bool → ℕ → Option DeviceLock
blocking_lock none holder force now = none
blocking_lock (some r) holder force now =
    if ltb now r.expires_at && not (text_eq r.holder holder) && not force then some r else none

-- What a caller has decided from its SELECT: the other holder's lock, or the row that it will write.
pub data Asked : Type 0 where
  taken : DeviceLock → Asked
  granted : DeviceLock → Asked

abbrev pub decide : DeviceLock → Option DeviceLock → Asked
decide new (some other) = taken other
decide new none = granted new

-- `acquire_lock` up to its INSERT. The two statements are no transaction: other calls may come
-- between them.
unfoldable pub ask_lock : Db → Text → Text → Text → Bool → ℕ → ℕ → Asked
ask_lock db device_id holder label force ttl now =
    let new : DeviceLock = record {
      device_id = device_id;
      holder = holder;
      label = label;
      acquired_at = now;
      expires_at = now + ttl;
    } in
    decide new (blocking_lock (find (locks_device device_id) db.device_locks) holder force now)

-- Its INSERT.
unfoldable pub write_lock : Db → DeviceLock → Result Db
unfolding upsert_lock
write_lock db new = upsert_lock db new (find (locks_device new.device_id) db.device_locks)

-- The answer (acquired, lock), and the database after the call.
abbrev acquire_answer : Db → Asked → Result (Bool × DeviceLock × Db)
acquire_answer db (taken other) = ok (false, other, db)
acquire_answer db (granted new) = do db' ← write_lock db new; ok (true, new, db')

-- The call where nothing comes between.
unfoldable pub acquire_lock :
    Db → Text → Text → Text → Bool → ℕ → ℕ → Result (Bool × DeviceLock × Db)
unfolding ask_lock write_lock
acquire_lock db device_id holder label force ttl now =
    acquire_answer db (ask_lock db device_id holder label force ttl now)

-- WHERE device_id = ? AND holder = ? AND expires_at > ?
abbrev refreshable : Text → Text → ℕ → DeviceLock → Bool
refreshable device_id holder now r =
    text_eq r.device_id device_id && text_eq r.holder holder && ltb now r.expires_at

unfoldable pub refresh_lock : Db → Text → Text → ℕ → ℕ → Bool × Db
refresh_lock db device_id holder ttl now =
    let held = refreshable device_id holder now in
    (
      ltb 0 (matches held db.device_locks),
      record db {
        device_locks = update held (λ r. record r { expires_at = now + ttl }) db.device_locks;
      },
    )

unfoldable pub release_lock : Db → Text → Text → Db
release_lock db device_id holder = record db {
  device_locks =
      delete (λ r. text_eq r.device_id device_id && text_eq r.holder holder) db.device_locks;
}

-- The rows of the JOIN with `devices`, restricted to one owner; `devices.id` is a primary key.
abbrev pub belongs_to : ℕ → Option Device → Bool
belongs_to owner_id none = false
belongs_to owner_id (some d) = d.owner_id == owner_id

unfoldable pub get_locks_for_user : Db → ℕ → ℕ → List DeviceLock
get_locks_for_user db owner_id now =
    select
      (λ r.
        ltb now r.expires_at
        && belongs_to owner_id (find (λ (d : Device). text_eq d.id r.device_id) db.devices))
      db.device_locks
