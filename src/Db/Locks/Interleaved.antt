-- ===== src/Db/Locks/Interleaved.antt =====
-- The statements of hub/db.py, "Device locks", as they interleave: the SELECT and the INSERT of an
-- acquiring call are two steps.
use vortex_portal.Base.{
  ℕ, zero, suc, ◌≤◌, ◌<◌, ◌≡◌, ◌≢◌, ◌⊎◌, refl, Bool, true, false, Option, none, some, List, [], ◌∷◌,
  ◌++◌, arith, All, Bool-cases, inl, inr,
}
use vortex_portal.Base.Text.{Text, text_eq, text_eq_iff}
use vortex_portal.Base.Table.{
  find, find-append_some, find-update_keeps, find-delete_spared, find-update_spared,
}
use vortex_portal.Db.Schema.{Db, DeviceLock, Result, ok, integrity_error}
use vortex_portal.Db.Purge.{purge_expired}
use vortex_portal.Db.Locks.{
  locks_device, upsert_lock, Asked, taken, granted, decide, ask_lock, write_lock, refresh_lock,
  release_lock, refreshable,
}

-- A statement that may touch the locks, with its clock: the two of `acquire_lock` apart, the
-- others' calls whole. `writes k` is the INSERT of the k-th caller that has been granted the lock
-- and has not written yet.
pub data LockStep : Type 0 where
  asks : Text → Text → Text → Bool → ℕ → ℕ → LockStep
  writes : ℕ → LockStep
  refresh : Text → Text → ℕ → ℕ → LockStep
  release : Text → Text → LockStep
  purge : ℕ → LockStep

-- The database, and the rows that are about to be written.
pub record Racing : Type 0 where
  pub db : Db
  pub waiting : List DeviceLock

-- The k-th row, and the list without it.
pub take_out : ℕ → List DeviceLock → Option DeviceLock × List DeviceLock
take_out k [] = (none, [])
take_out zero (w ∷ ws) = (some w, ws)
take_out (suc k) (w ∷ ws) = let rest = take_out k ws in (rest.0, w ∷ rest.1)

abbrev after_write : Db → Result Db → Db
after_write db (ok db') = db'
after_write db integrity_error = db

abbrev write_waiting : Db → Option DeviceLock × List DeviceLock → Racing
write_waiting db (none, ws) = record { db = db; waiting = ws }
write_waiting db (some new, ws) = record { db = after_write db (write_lock db new); waiting = ws }

abbrev after_ask : Racing → Asked → Racing
after_ask s (taken other) = s
after_ask s (granted new) = record s { waiting = s.waiting ++ new ∷ [] }

pub step : Racing → LockStep → Racing
step s (asks d h label force ttl now) = after_ask s (ask_lock s.db d h label force ttl now)
step s (writes k) = write_waiting s.db (take_out k s.waiting)
step s (refresh d h ttl now) = record s { db = (refresh_lock s.db d h ttl now).1 }
step s (release d h) = record s { db = release_lock s.db d h }
step s (purge now) = record s { db = purge_expired s.db now }

unfoldable pub run : Racing → List LockStep → Racing
run s [] = s
run s (c ∷ cs) = run (step s c) cs

-- A statement of somebody else, before the lease ends: it is about another device, or it comes from
-- another holder, and takes nothing by force.
abbrev pub IsForeign : DeviceLock → LockStep → Type 0
IsForeign l (asks d h label force ttl now) =
    (d ≢ l.device_id) ⊎ ((h ≢ l.holder) × (force ≡ false) × (now < l.expires_at))
IsForeign l (writes k) = Unit
IsForeign l (refresh d h ttl now) = (d ≢ l.device_id) ⊎ (h ≢ l.holder)
IsForeign l (release d h) = (d ≢ l.device_id) ⊎ (h ≢ l.holder)
IsForeign l (purge now) = now ≤ l.expires_at

-- A row for another device.
abbrev pub IsApart : DeviceLock → DeviceLock → Type 0
IsApart l w = w.device_id ≢ l.device_id

-- `l` is the row of its device.
abbrev pub Holds : Db → DeviceLock → Type 0
Holds db l = find (locks_device l.device_id) db.device_locks ≡ some l

-- An UPDATE or an INSERT for another device.
upsert_lock-Holds :
    (db db' : Db) (l new : DeviceLock) (row : Option DeviceLock)
    → new.device_id ≢ l.device_id
    → upsert_lock db new row ≡ ok db'
    → Holds db l
    → Holds db' l
unfolding upsert_lock
upsert_lock-Holds db db' l new (some old) d e h = ground (
  arith,
  find-update_keeps (locks_device l.device_id) (locks_device new.device_id) (λ _. new)
      db.device_locks apart (λ a _. away),
)
  where
    away : locks_device l.device_id new ≡ false
    away = ground (arith, text_eq_iff new.device_id l.device_id)

    apart :
        (a : DeviceLock) → locks_device new.device_id a ≡ true → locks_device l.device_id a ≡ false
    apart a p =
        ground (arith, text_eq_iff a.device_id new.device_id, text_eq_iff a.device_id l.device_id)
upsert_lock-Holds db db' l new none d e h =
    ground (arith, find-append_some (locks_device l.device_id) db.device_locks (new ∷ []) l)

refresh-Holds :
    (db : Db) (l : DeviceLock) (d h : Text) (ttl now : ℕ)
    → (d ≢ l.device_id) ⊎ (h ≢ l.holder)
    → Holds db l
    → Holds (refresh_lock db d h ttl now).1 l
unfolding refresh_lock
refresh-Holds db l d h ttl now f k =
    find-update_spared (locks_device l.device_id) (refreshable d h now) _ db.device_locks l
      (λ a. refl) k (ground (arith, text_eq_iff l.device_id d, text_eq_iff l.holder h))

release-Holds :
    (db : Db) (l : DeviceLock) (d h : Text)
    → (d ≢ l.device_id) ⊎ (h ≢ l.holder)
    → Holds db l
    → Holds (release_lock db d h) l
unfolding release_lock
release-Holds db l d h f k =
    find-delete_spared (locks_device l.device_id) _ db.device_locks l k
      (ground (arith, text_eq_iff l.device_id d, text_eq_iff l.holder h))

purge-Holds :
    (db : Db) (l : DeviceLock) (now : ℕ)
    → now ≤ l.expires_at
    → Holds db l
    → Holds (purge_expired db now) l
unfolding purge_expired
purge-Holds db l now b k =
    find-delete_spared (locks_device l.device_id) _ db.device_locks l k (ground arith)

write_lock-Holds :
    (db : Db) (l new : DeviceLock) (r : Result Db)
    → write_lock db new ≡ r
    → IsApart l new
    → Holds db l
    → Holds (after_write db r) l
unfolding write_lock
write_lock-Holds db l new (ok db') e d h = upsert_lock-Holds db db' l new _ d e h
write_lock-Holds db l new integrity_error e d h = h

-- No row that waits is for the device of `l`, which its row still has.
abbrev pub Guards : Racing → DeviceLock → Type 0
Guards s l = Holds s.db l × All (IsApart l) s.waiting

take_out-IsApart :
    (k : ℕ) (l : DeviceLock) (ws : List DeviceLock)
    → All (IsApart l) ws
    → All (IsApart l) (take_out k ws).1
      × ((w : DeviceLock) → (take_out k ws).0 ≡ some w → IsApart l w)
unfolding take_out
take_out-IsApart k l [] h = (tt, λ w e. absurd (ground arith))
take_out-IsApart zero l (x ∷ ws) h = (h.1, λ w e q. h.0 (ground arith))
take_out-IsApart (suc k) l (x ∷ ws) h =
    let rest = take_out-IsApart k l ws h.1 in ((h.0, rest.0), rest.1)

write-Guards :
    (s : Racing) (l : DeviceLock) (o : Option DeviceLock) (ws : List DeviceLock)
    → Holds s.db l
    → All (IsApart l) ws
    → ((w : DeviceLock) → o ≡ some w → IsApart l w)
    → Guards (write_waiting s.db (o, ws)) l
write-Guards s l none ws h a f = (h, a)
write-Guards s l (some w) ws h a f = (write_lock-Holds s.db l w _ refl (f w refl) h, a)

All-snoc :
    (l w : DeviceLock) (ws : List DeviceLock)
    → All (IsApart l) ws
    → IsApart l w
    → All (IsApart l) (ws ++ w ∷ [])
All-snoc l w [] h a = (a, tt)
All-snoc l w (x ∷ ws) h a = (h.0, All-snoc l w ws h.1 a)

answer-Guards :
    (s : Racing) (l new : DeviceLock) (held : Option DeviceLock)
    → IsApart l new ⊎ (held ≡ some l)
    → Guards s l
    → Guards (after_ask s (decide new held)) l
answer-Guards s l new (some other) f h = h
answer-Guards s l new none (inr e) h = absurd (ground arith)
answer-Guards s l new none (inl d) h = (h.0, All-snoc l new s.waiting h.1 d)

ask-Guards :
    (s : Racing) (l : DeviceLock) (d h label : Text) (force : Bool) (ttl now : ℕ)
    → IsForeign l (asks d h label force ttl now)
    → Guards s l
    → Guards (after_ask s (ask_lock s.db d h label force ttl now)) l
unfolding ask_lock
ask-Guards s l d h label force ttl now f k =
    answer-Guards s l _ _
      (elim (Bool-cases (text_eq d l.device_id)) [
        | inl same ↦ inr (
            rw ((text_eq_iff d l.device_id).0 same, k.0)
              (ground (arith, text_eq_iff l.holder h, text_eq_iff d l.device_id)))
        | inr other ↦ inl (ground (arith, text_eq_iff d l.device_id))
      ])
      k

step-Guards :
    (s : Racing) (l : DeviceLock) (c : LockStep) → IsForeign l c → Guards s l → Guards (step s c) l
unfolding step
step-Guards s l (asks d h label force ttl now) f k = ask-Guards s l d h label force ttl now f k
step-Guards s l (writes n) f k =
    let (rest, front) = take_out-IsApart n l s.waiting k.1 in
    write-Guards s l (take_out n s.waiting).0 (take_out n s.waiting).1 k.0 rest front
step-Guards s l (refresh d h ttl now) f k = (refresh-Holds s.db l d h ttl now f k.0, k.1)
step-Guards s l (release d h) f k = (release-Holds s.db l d h f k.0, k.1)
step-Guards s l (purge now) f k = (purge-Holds s.db l now f k.0, k.1)

pub run-Guards :
    (cs : List LockStep) (s : Racing) (l : DeviceLock)
    → All (IsForeign l) cs
    → Guards s l
    → Guards (run s cs) l
unfolding run
run-Guards [] s l f k = k
run-Guards (c ∷ cs) s l f k = run-Guards cs (step s c) l f.1 (step-Guards s l c f.0 k)
