-- ===== src/Hub/Capture/Bounded.antt =====
-- hub/app.py, `_capture_to_store`: the store of a device stays within its retention.
use vortex_portal.Base.{
  ℕ, suc, ◌+◌, ◌≤◌, ◌≡◌, ◌≢◌, refl, ap, ◌∙◌, Bool, Option, none, some, List, [], ◌∷◌, ◌++◌, length,
  length-append, length-take, arith, ◌==◌, Bool-cases, inl, inr, subst,
}
use vortex_portal.Base.Text.{Text}
use vortex_portal.Base.Dict.{Dict}
use vortex_portal.Base.Json.{Json}
use vortex_portal.Base.Table.{matches, delete, matches-delete-le, matches-append}
use vortex_portal.Db.Schema.{Db, TheftMedia, Result, ok, integrity_error}
use vortex_portal.Db.Theft.{Capture, add_theft_media, drop_rows, surplus, prune_theft_media}
use vortex_portal.Db.Theft.Retention.{with_id, HasIds, newest, prune_theft_media-keeps_newest}
use vortex_portal.Db.Audit.{Event, record_audit}
use vortex_portal.Router.Connection.{Bytes, Item}
use vortex_portal.Hub.Capture.{
  Captured, stored, failed, Store, Kind, captured, finish_capture, keep_bytes, capture_to_store,
}

-- The table of captures: ids are a primary key, and none has reached the next one to be given.
abbrev pub IsIndexed : Db → Type 0
IsIndexed db =
    HasIds db.theft_media × ((i : ℕ) → db.next_media ≤ i → matches (with_id i) db.theft_media ≡ 0)

matches-drop_rows-le :
    (p : TheftMedia → Bool) (old rows : List TheftMedia)
    → matches p (drop_rows rows old) ≤ matches p rows
unfolding drop_rows
matches-drop_rows-le p [] rows = omega arith
matches-drop_rows-le p (r ∷ old) rows = omega (
  arith,
  matches-drop_rows-le p old (delete (λ (m : TheftMedia). m.id == r.id) rows),
  matches-delete-le p (λ (m : TheftMedia). m.id == r.id) rows,
)

prune_theft_media-IsIndexed :
    (db : Db) (device_id : Text) (keep : ℕ)
    → IsIndexed db
    → IsIndexed (prune_theft_media db device_id keep).1
unfolding prune_theft_media
prune_theft_media-IsIndexed db device_id keep (ids, fresh) =
    let old = surplus db device_id keep in
    (
      λ i. omega (arith, matches-drop_rows-le (with_id i) old db.theft_media, ids i),
      λ i l. omega (arith, matches-drop_rows-le (with_id i) old db.theft_media, fresh i l),
    )

matches_one : (i : ℕ) (m : TheftMedia) → matches (with_id i) (m ∷ []) ≤ 1
unfolding matches
matches_one i m = ground arith

matches_other : (i : ℕ) (m : TheftMedia) → m.id ≢ i → matches (with_id i) (m ∷ []) ≡ 0
unfolding matches
matches_other i m h = ground arith

-- A row with the next id keeps the table indexed.
add-IsIndexed :
    (db db' : Db) (m : TheftMedia)
    → IsIndexed db
    → m.id ≡ db.next_media
    → db'.theft_media ≡ db.theft_media ++ m ∷ []
    → db'.next_media ≡ suc db.next_media
    → IsIndexed db'
add-IsIndexed db db' m (ids, fresh) e t n = (one, none_left)
  where
    split :
        (i : ℕ)
        → matches (with_id i) db'.theft_media
          ≡ matches (with_id i) db.theft_media + matches (with_id i) (m ∷ [])
    split i = ap (matches (with_id i)) t ∙ matches-append (with_id i) db.theft_media (m ∷ [])

    one : (i : ℕ) → matches (with_id i) db'.theft_media ≤ 1
    one i = elim (Bool-cases (m.id == i)) [
      | inl z ↦ omega (arith, split i, matches_one i m, fresh i (ground arith))
      | inr z ↦ omega (arith, split i, matches_other i m (ground arith), ids i)
    ]

    none_left : (i : ℕ) → db'.next_media ≤ i → matches (with_id i) db'.theft_media ≡ 0
    none_left i l = omega (arith, split i, matches_other i m (ground arith), fresh i (omega arith))

abbrev row_of : Db → Capture → ℕ → TheftMedia
row_of db c now = record {
  id = db.next_media;
  device_id = c.device_id;
  owner_id = c.owner_id;
  kind = c.kind;
  created_at = now;
  path = c.path;
  mime = c.mime;
  size = c.size;
  meta = c.meta;
  trigger = c.trigger;
}

add_theft_media-row :
    (db db' : Db) (c : Capture) (now mid : ℕ)
    → add_theft_media db c now ≡ ok (mid, db')
    → (db'.theft_media ≡ db.theft_media ++ row_of db c now ∷ [])
      × (db'.next_media ≡ suc db.next_media)
      × (db'.audit_log ≡ db.audit_log)
      × (mid ≡ db.next_media)
unfolding add_theft_media
add_theft_media-row db db' c now mid e = ground arith

add_theft_media-theft_state :
    (db db' : Db) (c : Capture) (now mid : ℕ)
    → add_theft_media db c now ≡ ok (mid, db')
    → db'.theft_state ≡ db.theft_state
unfolding add_theft_media
add_theft_media-theft_state db db' c now mid e = ground arith

length-newest-le :
    (db : Db) (device_id : Text) (keep : ℕ)
    → HasIds db.theft_media
    → length (newest device_id (prune_theft_media db device_id keep).1.theft_media) ≤ keep
length-newest-le db device_id keep ids =
    let (kept, _, _) =
      prune_theft_media-keeps_newest db device_id (0 ∷ device_id) keep ids
        (λ h. omega (arith, ap length h)) in
    omega (arith, ap length kept, length-take keep (newest device_id db.theft_media))

record_audit-media :
    (db : Db) (e : Event) (now : ℕ) → IsIndexed db → IsIndexed (record_audit db e now)
unfolding record_audit
record_audit-media db e now h = h

record_audit-length :
    (db : Db) (e : Event) (now : ℕ)
    → length (record_audit db e now).audit_log ≡ length db.audit_log + 1
unfolding record_audit
record_audit-length db e now = length-append db.audit_log _

prune_theft_media-audit :
    (db : Db) (device_id : Text) (keep : ℕ)
    → (prune_theft_media db device_id keep).1.audit_log ≡ db.audit_log
unfolding prune_theft_media
prune_theft_media-audit db device_id keep = refl

failed-not_stored :
    (s : Store) (mid : ℕ) (s' : Store) → ◌≢◌ {A = Captured × Store} (failed, s) (stored mid, s')
failed-not_stored s mid s' = ground arith

-- What a capture leaves behind.
abbrev pub Kept : Text → ℕ → Db → Db → Type 0
Kept device_id retention db db' =
    IsIndexed db'
    × (length (newest device_id db'.theft_media) ≤ retention)
    × (length db'.audit_log ≡ length db.audit_log + 1)

finish_capture-Kept :
    (inside : Text → Bool) (device_id : Text) (owner_id retention now mid : ℕ) (e : Event)
    (c : Capture) (files : Dict Bytes) (db : Db) (s' : Store) (r : Result (ℕ × Db))
    → add_theft_media db c now ≡ r
    → IsIndexed db
    → finish_capture inside device_id owner_id e retention now files db r ≡ (stored mid, s')
    → Kept device_id retention db s'.db
finish_capture-Kept inside device_id owner_id retention now mid e c files db s' integrity_error a h
      g =
    elim (failed-not_stored _ mid s' g) [ ]
finish_capture-Kept inside device_id owner_id retention now mid e c files db s' (ok (id, db1)) a h
      g =
    let (rows, next, log, _) = add_theft_media-row db db1 c now id a in
    let indexed =
      record_audit-media db1 e now (add-IsIndexed db db1 (row_of db c now) h refl rows next) in
    let db2 = record_audit db1 e now in
    let pruned = prune_theft_media-IsIndexed db2 device_id retention indexed in
    let same : (prune_theft_media db2 device_id retention).1 ≡ s'.db =
      ap (λ (x : Captured × Store). x.1.db) g in
    subst (Kept device_id retention db) same (
      pruned,
      length-newest-le db2 device_id retention indexed.0,
      omega (
        arith,
        ap length (prune_theft_media-audit db2 device_id retention),
        record_audit-length db1 e now,
        ap length log,
      ),
    )

finish_capture-theft_state :
    (inside : Text → Bool) (device_id : Text) (owner_id retention now now' : ℕ) (e : Event)
    (c : Capture) (files : Dict Bytes) (db : Db) (r : Result (ℕ × Db))
    → add_theft_media db c now' ≡ r
    → (finish_capture inside device_id owner_id e retention now files db r).1.db.theft_state
      ≡ db.theft_state
unfolding add_theft_media record_audit prune_theft_media
finish_capture-theft_state inside device_id owner_id retention now now' e c files db integrity_error
      a =
    refl
finish_capture-theft_state inside device_id owner_id retention now now' e c files db (ok (id, db1))
      a =
    add_theft_media-theft_state db db1 c now' id a

module _ (digits : ℕ → Text) (meta_of : Kind → Bytes → Option Text) (inside : Text → Bool)
    (b64decode : Json → Bytes) where
  keep_bytes-Kept :
      (device_id : Text) (owner_id : ℕ) (kind : Kind) (trigger : Text) (retention now mid : ℕ)
      (drawn : Text) (s s' : Store) (o : Option Bytes)
      → IsIndexed s.db
      → keep_bytes digits meta_of inside device_id owner_id kind trigger retention now drawn s o
        ≡ (stored mid, s')
      → Kept device_id retention s.db s'.db
  keep_bytes-Kept device_id owner_id kind trigger retention now mid drawn s s' none h g =
      elim (failed-not_stored s mid s' g) [ ]
  keep_bytes-Kept device_id owner_id kind trigger retention now mid drawn s s' (some buf) h g =
      finish_capture-Kept inside device_id owner_id retention now mid _ _ _ s.db s' _ refl h g

  -- A capture that is stored keeps the table of captures indexed, ids unique and none at the next
  -- one to be given, leaves at most `retention` captures of its device, and is audited by one entry.
  pub capture_to_store-bounded :
      (device_id : Text) (owner_id : ℕ) (kind : Kind) (trigger : Text) (retention now mid : ℕ)
      (drawn : Text) (items : List Item) (s s' : Store)
      → IsIndexed s.db
      → capture_to_store digits meta_of inside b64decode device_id owner_id kind trigger retention
          now drawn items s
        ≡ (stored mid, s')
      → Kept device_id retention s.db s'.db
  unfolding capture_to_store
  capture_to_store-bounded device_id owner_id kind trigger retention now mid drawn items s s' h g =
      keep_bytes-Kept device_id owner_id kind trigger retention now mid drawn s s'
        (captured b64decode items) h g

  keep_bytes-theft_state :
      (device_id : Text) (owner_id : ℕ) (kind : Kind) (trigger : Text) (retention now : ℕ)
      (drawn : Text) (s : Store) (o : Option Bytes)
      → (keep_bytes digits meta_of inside device_id owner_id kind trigger retention now drawn s
          o).1.db.theft_state
        ≡ s.db.theft_state
  keep_bytes-theft_state device_id owner_id kind trigger retention now drawn s none = refl
  keep_bytes-theft_state device_id owner_id kind trigger retention now drawn s (some buf) =
      finish_capture-theft_state inside device_id owner_id retention now now _ _ _ s.db _ refl

  -- A capture leaves the arming of the devices alone.
  pub capture_to_store-theft_state :
      (device_id : Text) (owner_id : ℕ) (kind : Kind) (trigger : Text) (retention now : ℕ)
      (drawn : Text) (items : List Item) (s : Store)
      → (capture_to_store digits meta_of inside b64decode device_id owner_id kind trigger retention
          now drawn items s).1.db.theft_state
        ≡ s.db.theft_state
  unfolding capture_to_store
  capture_to_store-theft_state device_id owner_id kind trigger retention now drawn items s =
      keep_bytes-theft_state device_id owner_id kind trigger retention now drawn s
        (captured b64decode items)
