-- ===== src/Db/Theft/Retention.antt =====
-- hub/db.py, `prune_theft_media`: the newest captures of a device stay, the others go.
use vortex_portal.Base.{
  ℕ, ◌≤◌, ◌≡◌, ◌≢◌, refl, sym, Bool, true, false, some, List, [], ◌∷◌, ◌++◌, arith, ◌==◌, ==_iff,
  ◌∙◌, ap, All, take, drop, take-append-drop, subst, All-map,
}
use vortex_portal.Base.Text.{Text, text_eq, text_eq_iff}
use vortex_portal.Base.Table.{
  find, select, delete, matches, find_head, matches-delete-le, matches-select-le, select-delete,
  All-select, All-selected, select-delete_sole, delete-append_sole, find-delete_spared,
  matches-append, find-is_some, matches-find, find-holds,
}
use vortex_portal.Base.Sort.{order_by, order_by-delete, matches-order_by, All-order_by, All-drop}
use mathlib.Core.List.{append-nil}
use vortex_portal.Db.Schema.{Db, TheftMedia}
use vortex_portal.Db.Theft.{newer, drop_rows, paths_of, surplus, prune_theft_media}

abbrev pub with_id : ℕ → TheftMedia → Bool
with_id i m = m.id == i

abbrev pub on_device : Text → TheftMedia → Bool
on_device device_id m = text_eq m.device_id device_id

-- `id` is a primary key.
abbrev pub HasIds : List TheftMedia → Type 0
HasIds rows = (i : ℕ) → matches (with_id i) rows ≤ 1

newer_irreflexive : (x y : TheftMedia) → newer x y ≡ true → newer y x ≡ false
newer_irreflexive x y h = ground arith

newer_transitive : (x y z : TheftMedia) → newer y x ≡ false → newer z y ≡ false → newer z x ≡ false
newer_transitive x y z h k = ground arith

-- The captures of a device, newest first.
abbrev pub newest : Text → List TheftMedia → List TheftMedia
newest device_id rows = order_by newer (select (on_device device_id) rows)

newest-delete :
    (device_id : Text) (q : TheftMedia → Bool) (rows : List TheftMedia)
    → newest device_id (delete q rows) ≡ delete q (newest device_id rows)
newest-delete device_id q rows =
    ap (order_by newer) (select-delete (on_device device_id) q rows)
    ∙ order_by-delete newer newer_irreflexive newer_transitive q (select (on_device device_id) rows)

newest-drop_rows :
    (device_id : Text) (old rows : List TheftMedia)
    → newest device_id (drop_rows rows old) ≡ drop_rows (newest device_id rows) old
unfolding drop_rows
newest-drop_rows device_id [] rows = refl
newest-drop_rows device_id (r ∷ old) rows =
    newest-drop_rows device_id old (delete (with_id r.id) rows)
    ∙ ap (λ l. drop_rows l old) (newest-delete device_id (with_id r.id) rows)

drop_rows-append :
    (old kept : List TheftMedia) → HasIds (kept ++ old) → drop_rows (kept ++ old) old ≡ kept
unfolding drop_rows matches
drop_rows-append [] kept h = append-nil kept
drop_rows-append (r ∷ old) kept h =
    let out = delete-append_sole (with_id r.id) kept old r ((==_iff r.id r.id).1 refl) (h r.id) in
    rw out (
      drop_rows-append old kept (λ i. ground (
        arith,
        matches-append (with_id i) kept old,
        matches-append (with_id i) kept (r ∷ old),
        h i,
      )))

-- In a table with a primary key every row is the one that its id finds.
rows-found :
    (rows : List TheftMedia) → HasIds rows → All (λ r. find (with_id r.id) rows ≡ some r) rows
unfolding find matches
rows-found [] h = tt
rows-found (x ∷ rows) h = (
  find_head (with_id x.id) x rows ((==_iff x.id x.id).1 refl),
  All-map _ _
      (λ r e. ground (
        arith,
        h r.id,
        find-is_some (with_id r.id) (with_id r.id) rows r e,
        matches-find (with_id r.id) rows,
        find-holds (with_id r.id) rows r,
      ))
      rows (rows-found rows (λ i. ground (arith, h i))),
)

HasIds-newest :
    (device_id : Text) (rows : List TheftMedia) → HasIds rows → HasIds (newest device_id rows)
HasIds-newest device_id rows h i = omega (
  arith,
  matches-order_by newer (with_id i) (select (on_device device_id) rows),
  matches-select-le (with_id i) (on_device device_id) rows,
  h i,
)

-- The rows that go, while they go: each is the one row of its id, and on the device.
abbrev Doomed : Text → List TheftMedia → TheftMedia → Type 0
Doomed device_id rows r = (find (with_id r.id) rows ≡ some r) × (r.device_id ≡ device_id)

drop_rows-elsewhere :
    (device_id other : Text) (old rows : List TheftMedia)
    → other ≢ device_id
    → HasIds rows
    → HasIds old
    → All (Doomed device_id rows) old
    → select (on_device other) (drop_rows rows old) ≡ select (on_device other) rows
unfolding drop_rows matches
drop_rows-elsewhere device_id other [] rows d h k a = refl
drop_rows-elsewhere device_id other (r ∷ old) rows d h k a =
    drop_rows-elsewhere device_id other old (delete (with_id r.id) rows) d
      (λ i. omega (arith, matches-delete-le (with_id i) (with_id r.id) rows, h i))
      (λ i. ground (arith, k i)) (still old a.1 (λ i. k i))
    ∙ select-delete_sole (on_device other) (with_id r.id) rows r a.0.0 (h r.id)
        (ground (arith, text_eq_iff r.device_id other))
  where
    still :
        (rest : List TheftMedia)
        → All (Doomed device_id rows) rest
        → ((i : ℕ) → matches (with_id i) (r ∷ rest) ≤ 1)
        → All (Doomed device_id (delete (with_id r.id) rows)) rest
    still [] b m = tt
    still (x ∷ rest) b m = (
      (
        find-delete_spared (with_id x.id) (with_id r.id) rows x b.0.0 (ground (arith, m x.id)),
        b.0.1,
      ),
      still rest b.1 (λ i. ground (arith, m i)),
    )

surplus-Doomed :
    (db : Db) (device_id : Text) (keep : ℕ)
    → HasIds db.theft_media
    → All (Doomed device_id db.theft_media) (surplus db device_id keep)
unfolding surplus
surplus-Doomed db device_id keep h =
    All-drop newer (Doomed device_id db.theft_media) keep (newest device_id db.theft_media) (
      All-order_by newer (Doomed device_id db.theft_media)
        (select (on_device device_id) db.theft_media)
        (both (select (on_device device_id) db.theft_media)
          (All-select _ (on_device device_id) db.theft_media (rows-found db.theft_media h))
          (All-selected (on_device device_id) db.theft_media)))
  where
    both :
        (rows : List TheftMedia)
        → All (λ r. find (with_id r.id) db.theft_media ≡ some r) rows
        → All (λ r. on_device device_id r ≡ true) rows
        → All (Doomed device_id db.theft_media) rows
    both [] a b = tt
    both (x ∷ rows) a b = ((a.0, (text_eq_iff x.device_id device_id).0 b.0), both rows a.1 b.1)

HasIds-drop : (n : ℕ) (rows : List TheftMedia) → HasIds rows → HasIds (drop n rows)
HasIds-drop n rows h i = omega (
  arith,
  matches-append (with_id i) (take n rows) (drop n rows),
  ap (matches (with_id i)) (take-append-drop n rows),
  h i,
)

-- Pruning keeps exactly the newest `keep` captures of the device, in their order, and every capture
-- of every other device; it answers with the files of the rest, where they have one.
pub prune_theft_media-keeps_newest :
    (db : Db) (device_id other : Text) (keep : ℕ)
    → HasIds db.theft_media
    → other ≢ device_id
    → let (paths, db') = prune_theft_media db device_id keep in
      (newest device_id db'.theft_media ≡ take keep (newest device_id db.theft_media))
      × (newest other db'.theft_media ≡ newest other db.theft_media)
      × (paths ≡ paths_of (drop keep (newest device_id db.theft_media)))
unfolding prune_theft_media
prune_theft_media-keeps_newest db device_id other keep h d =
    let rows = newest device_id db.theft_media in
    (
      newest-drop_rows device_id (drop keep rows) db.theft_media
          ∙ ap (λ l. drop_rows l (drop keep rows)) (sym (take-append-drop keep rows))
          ∙ drop_rows-append (drop keep rows) (take keep rows) (
              subst HasIds (sym (take-append-drop keep rows))
                (HasIds-newest device_id db.theft_media h)),
      ap (order_by newer) (
          drop_rows-elsewhere device_id other (drop keep rows) db.theft_media d h
            (HasIds-drop keep rows (HasIds-newest device_id db.theft_media h))
            (surplus-Doomed db device_id keep h)),
      refl,
    )
