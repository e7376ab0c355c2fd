-- ===== src/Db/Theft.antt =====
-- hub/db.py, "Theft Mode": the arming of devices and the captures that are kept.
pub mod Retention
use vortex_portal.Base.{
  ℕ, suc, ◌+◌, max, Bool, true, false, ◌&&◌, ◌||◌, not, Option, none, some, List, [], ◌∷◌, ◌++◌,
  if◌then◌else◌, ltb, ◌==◌, take, drop, is_some,
}
use vortex_portal.Base.Text.{Text, codes, text_eq, non_empty, or_empty}
use vortex_portal.Base.Table.{find, select, delete, update}
use vortex_portal.Base.Sort.{order_by}
use vortex_portal.Db.Schema.{
  Db, Device, TheftState, TheftMedia, Result, ok, integrity_error, device_exists, user_exists,
}

-- WHERE device_id = ?
abbrev pub state_of : Text → TheftState → Bool
state_of device_id r = text_eq r.device_id device_id

unfoldable pub get_theft_state : Db → Text → Option TheftState
get_theft_state db device_id = find (state_of device_id) db.theft_state

-- INSERT … ON CONFLICT(device_id) DO UPDATE, which keeps `last_run`
arm_row : Db → TheftState → Option TheftState → Result Db
arm_row db new (some _) = ok (record db {
  theft_state =
      update (state_of new.device_id) (λ r. record new { last_run = r.last_run }) db.theft_state;
})
arm_row db new none =
    if device_exists db new.device_id
    then ok (record db { theft_state = db.theft_state ++ new ∷ [] })
    else integrity_error

unfoldable pub set_theft_armed : Db → Text → Bool → Option ℕ → ℕ → Text → ℕ → Result Db
unfolding arm_row
set_theft_armed db device_id armed armed_by interval_s opts now =
    let new : TheftState = record {
      device_id = device_id;
      armed = armed;
      armed_at = if armed then some now else none;
      armed_by = if armed then armed_by else none;
      interval_s = max 30 interval_s;
      opts = opts;
      last_run = none;
    } in
    arm_row db new (find (state_of device_id) db.theft_state)

unfoldable pub update_theft_last_run : Db → Text → ℕ → Db
update_theft_last_run db device_id ts = record db {
  theft_state = update (state_of device_id) (λ r. record r { last_run = some ts }) db.theft_state;
}

-- The JOIN with `devices`: the state, with the owner of its device.
unfoldable pub with_owner : List Device → List TheftState → List (TheftState × ℕ)
with_owner devices [] = []
with_owner devices (t ∷ ts) =
    let rest = with_owner devices ts in
    elim (find (λ (d : Device). text_eq d.id t.device_id) devices) [
      | none ↦ rest
      | some d ↦ (t, d.owner_id) ∷ rest
    ]

unfoldable pub armed_devices : Db → List (TheftState × ℕ)
armed_devices db = with_owner db.devices (select (λ (t : TheftState). t.armed) db.theft_state)

unfoldable pub theft_states_for_user : Db → ℕ → List (TheftState × ℕ)
theft_states_for_user db owner_id =
    select (λ (t : TheftState × ℕ). t.1 == owner_id) (with_owner db.devices db.theft_state)

-- The arguments of `add_theft_media`.
pub record Capture : Type 0 where
  pub device_id : Text
  pub owner_id : ℕ
  pub kind : Text
  pub path : Option Text
  pub mime : Option Text
  pub size : Option ℕ
  pub meta : Option Text
  pub trigger : Text

unfoldable pub add_theft_media : Db → Capture → ℕ → Result (ℕ × Db)
add_theft_media db c now =
    if device_exists db c.device_id && user_exists db c.owner_id
    then (ok (
      db.next_media,
      record db {
        theft_media =
            db.theft_media
            ++ (record {
              id = db.next_media;
              device_id = c.device_id;
              owner_id = c.owner_id;
              kind = c.kind;
              created_at = now;
              path = c.path;
              mime = c.mime;
              size = c.size;
              meta = c.meta;
              trigger = c.trigger;
            })
              ∷ [];
        next_media = suc db.next_media;
      },
    ))
    else integrity_error

-- ORDER BY created_at DESC, id DESC
abbrev pub newer : TheftMedia → TheftMedia → Bool
newer a b = ltb b.created_at a.created_at || (a.created_at == b.created_at && ltb b.id a.id)

unfoldable pub list_theft_media : Db → Text → ℕ → ℕ → List TheftMedia
list_theft_media db device_id owner_id limit = take limit (
    order_by newer (
      select (λ (m : TheftMedia). text_eq m.device_id device_id && m.owner_id == owner_id)
        db.theft_media))

-- `kind` is the optional filter; an empty one filters nothing.
unfoldable pub list_theft_media_all : Db → ℕ → ℕ → Option Text → List TheftMedia
list_theft_media_all db owner_id limit kind = take limit (
    order_by newer (
      select
        (λ (m : TheftMedia).
          m.owner_id == owner_id
          && (not (non_empty (or_empty kind)) || text_eq m.kind (or_empty kind)))
        db.theft_media))

-- `out`: the first row of each device, as the dictionary's pairs
unfoldable pub first_per_device :
    List (Text × TheftMedia) → List TheftMedia → List (Text × TheftMedia)
first_per_device out [] = out
first_per_device out (r ∷ rows) =
    first_per_device
      (if is_some (find (λ (e : Text × TheftMedia). text_eq e.0 r.device_id) out)
        then out
        else out ++ (r.device_id, r) ∷ [])
      rows

unfoldable pub latest_location_per_device : Db → ℕ → List (Text × TheftMedia)
unfolding first_per_device
latest_location_per_device db owner_id = first_per_device [] (
    order_by newer (
      select (λ (m : TheftMedia). m.owner_id == owner_id && text_eq m.kind (codes "location"))
        db.theft_media))

-- WHERE id = ? AND owner_id = ?
abbrev pub media_of : ℕ → ℕ → TheftMedia → Bool
media_of media_id owner_id m = m.id == media_id && m.owner_id == owner_id

unfoldable pub get_theft_media : Db → ℕ → ℕ → Option TheftMedia
get_theft_media db media_id owner_id = find (media_of media_id owner_id) db.theft_media

abbrev pub delete_found : Db → ℕ → ℕ → Option TheftMedia → Option TheftMedia × Db
delete_found db media_id owner_id none = (none, db)
delete_found db media_id owner_id (some row) =
    (some row, record db { theft_media = delete (media_of media_id owner_id) db.theft_media })

unfoldable pub delete_theft_media : Db → ℕ → ℕ → Option TheftMedia × Db
unfolding get_theft_media
delete_theft_media db media_id owner_id =
    delete_found db media_id owner_id (get_theft_media db media_id owner_id)

-- The loop of `prune_theft_media`: the rows that stay, and the paths of those that go.
unfoldable pub drop_rows : List TheftMedia → List TheftMedia → List TheftMedia
drop_rows rows [] = rows
drop_rows rows (r ∷ old) = drop_rows (delete (λ (m : TheftMedia). m.id == r.id) rows) old

unfoldable pub paths_of : List TheftMedia → List Text
paths_of [] = []
paths_of (r ∷ old) =
    let rest = paths_of old in if non_empty (or_empty r.path) then or_empty r.path ∷ rest else rest

-- SELECT … ORDER BY … LIMIT -1 OFFSET keep
unfoldable pub surplus : Db → Text → ℕ → List TheftMedia
surplus db device_id keep =
    drop keep
      (order_by newer (select (λ (m : TheftMedia). text_eq m.device_id device_id) db.theft_media))

unfoldable pub prune_theft_media : Db → Text → ℕ → List Text × Db
unfolding drop_rows paths_of surplus
prune_theft_media db device_id keep =
    let old = surplus db device_id keep in
    (paths_of old, record db { theft_media = drop_rows db.theft_media old })
