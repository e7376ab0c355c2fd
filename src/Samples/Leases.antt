-- ===== src/Samples/Leases.antt =====
-- The device locks at the sample device.
use vortex_portal.Base.{◌≡◌, refl, inr, false, some, List, [], ◌∷◌, arith}
use vortex_portal.Base.Text.{codes, text_eq}
use vortex_portal.Base.Table.{find}
use vortex_portal.Db.Schema.{Db, DeviceLock, device_exists}
use vortex_portal.Db.Locks.{get_lock, ask_lock, write_lock}
use vortex_portal.Db.Locks.Lease
use vortex_portal.Db.Locks.Interleaved.{LockStep, asks, writes, refresh, release, purge, run}
use vortex_portal.Samples.{home}

abbrev ann_lock : DeviceLock
ann_lock = record {
  device_id = codes "d1";
  holder = codes "a";
  label = codes "tab";
  acquired_at = 100;
  expires_at = 130;
}

abbrev locked : Db
locked = record home { device_locks = ann_lock ∷ [] }

abbrev others : List LockStep
others =
    asks (codes "d1") (codes "b") (codes "x") false 30 105
    ∷ writes 0
    ∷ release (codes "d1") (codes "b")
    ∷ refresh (codes "d1") (codes "b") 30 106
    ∷ purge 110
    ∷ []

abbrev elsewhere : DeviceLock
elsewhere = record ann_lock { device_id = codes "d2" }

acquire_lock-exclusive_example :
    (get_lock (run (record { db = locked; waiting = elsewhere ∷ [] }) others).db (codes "d1") 129
      ≡ some ann_lock)
    × (ann_lock.holder ≡ codes "a")
    × (ann_lock.expires_at ≡ 130)
unfolding ask_lock write_lock find text_eq device_exists
acquire_lock-exclusive_example =
    Lease.acquire_lock-exclusive home home locked (codes "d1") (codes "a") (codes "tab") false 30
      100 ann_lock (elsewhere ∷ []) others 129 refl refl (ground arith, tt)
      (
        inr (ground arith, refl, omega arith),
        (tt, (inr (ground arith), (inr (ground arith), (omega arith, tt)))),
      )
      (omega arith)

abbrev bob_lock : DeviceLock
bob_lock = record ann_lock { holder = codes "b" }
