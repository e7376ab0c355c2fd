-- ===== src/Db/Locks/Lease.antt =====
-- The lease of hub/db.py, "Device locks", through any sequence of statements.
use vortex_portal.Base.{
  ℕ, ◌+◌, ◌<◌, ◌≡◌, refl, sym, ap, ◌∙◌, Bool, true, Option, none, some, List, [], ◌∷◌, arith, ltb,
  All,
}
use vortex_portal.Base.Text.{Text, text_eq_refl}
use vortex_portal.Base.Table.{
  find, find-append_none, find_head, find_narrow, find-update_hit, find-update_first, find-is_some,
  matches-find,
}
use vortex_portal.Db.Schema.{Db, DeviceLock, ok}
use vortex_portal.Db.Locks.{
  locks_device, get_lock, blocking_lock, upsert_lock, granted, decide, ask_lock, write_lock,
  refresh_lock, refreshable,
}
use vortex_portal.Db.Locks.Interleaved.{LockStep, run, IsForeign, IsApart, Holds, run-Guards}

get_lock-Holds :
    (db : Db) (l : DeviceLock) (now : ℕ)
    → Holds db l
    → now < l.expires_at
    → get_lock db l.device_id now ≡ some l
unfolding get_lock
get_lock-Holds db l now k b =
    find_narrow (locks_device l.device_id) (λ r. ltb now r.expires_at) db.device_locks l k
      (ground arith)

upsert-Holds :
    (db db' : Db) (new : DeviceLock) (row : Option DeviceLock)
    → find (locks_device new.device_id) db.device_locks ≡ row
    → upsert_lock db new row ≡ ok db'
    → Holds db' new
unfolding upsert_lock
upsert-Holds db db' new (some old) f e = ground (
  arith,
  text_eq_refl new.device_id,
  find-update_hit (locks_device new.device_id) new db.device_locks old,
)
upsert-Holds db db' new none f e = ground (
  arith,
  find-append_none (locks_device new.device_id) db.device_locks (new ∷ []),
  find_head (locks_device new.device_id) new [] (text_eq_refl new.device_id),
)

write_lock-written : (db db' : Db) (new : DeviceLock) → write_lock db new ≡ ok db' → Holds db' new
unfolding write_lock
write_lock-written db db' new e = upsert-Holds db db' new _ refl e

-- The row that a caller is granted is its own.
ask_lock-granted :
    (db : Db) (d h label : Text) (force : Bool) (ttl now : ℕ) (l : DeviceLock)
    → ask_lock db d h label force ttl now ≡ granted l
    → (l.device_id ≡ d) × (l.holder ≡ h) × (l.expires_at ≡ now + ttl)
unfolding ask_lock
ask_lock-granted db d h label force ttl now l e =
    decided _ l (blocking_lock (find (locks_device d) db.device_locks) h force now) e
  where
    decided :
        (new l : DeviceLock) (held : Option DeviceLock)
        → decide new held ≡ granted l
        → (l.device_id ≡ new.device_id) × (l.holder ≡ new.holder) × (l.expires_at ≡ new.expires_at)
    decided new l (some other) e = absurd (ground arith)
    decided new l none e = ground arith

-- A lease that was granted and written holds until it ends: if no other caller that was granted the
-- same device is still to write when it is written, then whatever statements of other holders
-- without force, statements about other devices and housekeeping before that end come after it,
-- the SELECT and the INSERT of an acquiring call apart, `get_lock` answers with the granted row,
-- which names the caller and ends `ttl` seconds after the call.
pub acquire_lock-exclusive :
    (before db db' : Db) (d h label : Text) (force : Bool) (ttl now : ℕ) (l : DeviceLock)
    (waiting : List DeviceLock) (cs : List LockStep) (t : ℕ)
    → ask_lock before d h label force ttl now ≡ granted l
    → write_lock db l ≡ ok db'
    → All (IsApart l) waiting
    → All (IsForeign l) cs
    → t < now + ttl
    → (get_lock (run (record { db = db'; waiting = waiting }) cs).db d t ≡ some l)
      × (l.holder ≡ h)
      × (l.expires_at ≡ now + ttl)
acquire_lock-exclusive before db db' d h label force ttl now l waiting cs t e w apart f b =
    let (device, holder, ends) = ask_lock-granted before d h label force ttl now l e in
    let held =
      run-Guards cs (record { db = db'; waiting = waiting }) l f
        (write_lock-written db db' l w, apart) in
    let after = (run (record { db = db'; waiting = waiting }) cs).db in
    (
      ap (λ x. get_lock after x t) (sym device)
          ∙ get_lock-Holds after l t held.0 (omega (arith, ends)),
      holder,
      ends,
    )

-- The holder's heartbeat prolongs the lease to `ttl` seconds from now, and only that.
pub refresh_lock-extends :
    (db : Db) (l : DeviceLock) (ttl now t : ℕ)
    → find (locks_device l.device_id) db.device_locks ≡ some l
    → now < l.expires_at
    → t < now + ttl
    → ((refresh_lock db l.device_id l.holder ttl now).0 ≡ true)
      × (get_lock (refresh_lock db l.device_id l.holder ttl now).1 l.device_id t
          ≡ some (record l { expires_at = now + ttl }))
unfolding refresh_lock
refresh_lock-extends db l ttl now t k b c =
    let held = refreshable l.device_id l.holder now in
    let mine : held l ≡ true = ground (arith, text_eq_refl l.device_id, text_eq_refl l.holder) in
    let kept =
      find-update_first (locks_device l.device_id) held
        (λ (r : DeviceLock). record r { expires_at = now + ttl }) db.device_locks l (λ a. refl) k
        mine in
    (
      matches-find held db.device_locks
          ∙ find-is_some (locks_device l.device_id) held db.device_locks l k mine,
      get_lock-Holds _ (record l { expires_at = now + ttl }) t kept c,
    )
