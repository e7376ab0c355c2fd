-- ===== src/Hub/Capture.antt =====
-- hub/app.py, `_capture_to_store` and `_norm_location`: one capture of a device. The items are what
-- the agent's stream gives, base64 and `str` are parameters, and the media store is a dictionary
-- from relative paths to contents.
pub mod Bounded
use vortex_portal.Base.{
  ℕ, zero, suc, max, min, Bool, true, false, ◌&&◌, ◌||◌, not, Option, none, some, List, [], ◌∷◌,
  ◌++◌, if◌then◌else◌, length, take, is_some,
}
use vortex_portal.Base.Text.{Text, codes, text_eq, non_empty}
use vortex_portal.Base.Json.{
  Json, null, bool, num, negative, text, arr, obj, Fields, end, field, lookup, truthy,
}
use vortex_portal.Base.Dict.{Dict, put, remove}
use vortex_portal.Db.Schema.{Db, User, Device, Result, ok, integrity_error}
use vortex_portal.Db.Devices.{get_device_for_user, list_devices}
use vortex_portal.Db.Theft.{set_theft_armed, Capture, add_theft_media, prune_theft_media}
use vortex_portal.Db.Audit.{Event, record_audit}
use vortex_portal.Router.Connection.{
  Bytes, Item, message, chunk, closing, take_turn, Turn, yields, yields_last, returns, raises,
  is_type,
}

-- `_capture_to_store`: the rest of the stream behind its start; none where it raises or stays open.
abbrev pub part_of : (Json → Bytes) → Item → Bytes
part_of b64decode (message msg) =
    if is_type (codes "stream_chunk") msg && truthy (lookup (codes "data") msg)
    then b64decode (lookup (codes "data") msg)
    else []
part_of b64decode (chunk r bytes) = bytes
part_of b64decode closing = []

unfoldable pub capture_body : (Json → Bytes) → List Item → Bytes → Option Bytes
unfolding take_turn
capture_body b64decode [] buf = none
capture_body b64decode (item ∷ items) buf = elim (take_turn item) [
  | yields i ↦ capture_body b64decode items (buf ++ part_of b64decode i)
  | yields_last i ↦ some (buf ++ part_of b64decode i)
  | returns ↦ some buf
  | raises e ↦ none
]

abbrev is_start : Item → Bool
is_start (message msg) = is_type (codes "stream_start") msg
is_start (chunk r bytes) = false
is_start closing = false

unfoldable pub captured : (Json → Bytes) → List Item → Option Bytes
unfolding capture_body
captured b64decode [] = none
captured b64decode (item ∷ items) = if is_start item then capture_body b64decode items [] else none

-- The fields of a location; another value is cut to a text.
unfoldable pub norm_location : (Json → Text) → Json → Fields
norm_location show (obj loc) = field (codes "lat") (lookup (codes "latitude") loc) (
    field (codes "lon") (lookup (codes "longitude") loc) (
      field (codes "accuracy") (lookup (codes "accuracy") loc) (
        field (codes "altitude") (lookup (codes "altitude") loc) (
          field (codes "bearing") (lookup (codes "bearing") loc) (
            field (codes "speed") (lookup (codes "speed") loc)
              (field (codes "provider") (lookup (codes "provider") loc) end))))))
norm_location show null = field (codes "raw") (text (take 300 (show null))) end
norm_location show (bool b) = field (codes "raw") (text (take 300 (show (bool b)))) end
norm_location show (num n) = field (codes "raw") (text (take 300 (show (num n)))) end
norm_location show (negative n) = field (codes "raw") (text (take 300 (show (negative n)))) end
norm_location show (text t) = field (codes "raw") (text (take 300 (show (text t)))) end
norm_location show (arr vs) = field (codes "raw") (text (take 300 (show (arr vs)))) end

-- The three kinds: their MIME type and extension.
pub data Kind : Type 0 where
  photo_kind : Kind
  audio_kind : Kind
  location_kind : Kind

abbrev pub name_of : Kind → Text
name_of photo_kind = codes "photo"
name_of audio_kind = codes "audio"
name_of location_kind = codes "location"

abbrev pub mime_of : Kind → Text
mime_of photo_kind = codes "image/jpeg"
mime_of audio_kind = codes "audio/mp4"
mime_of location_kind = codes "application/json"

abbrev pub ext_of : Kind → Text
ext_of photo_kind = codes "jpg"
ext_of audio_kind = codes "m4a"
ext_of location_kind = codes "json"

pub record Store : Type 0 where
  pub db : Db
  pub files : Dict Bytes

-- The new id, or an exception.
pub data Captured : Type 0 where
  stored : ℕ → Captured
  failed : Captured

-- The files of the pruned rows: `inside` tells that a path resolves below the media root.
unfoldable pub remove_each : (Text → Bool) → List Text → Dict Bytes → Dict Bytes
remove_each inside [] files = files
remove_each inside (path ∷ paths) files =
    remove_each inside paths (if inside path then remove path files else files)

abbrev finish_capture :
    (Text → Bool) → Text → ℕ → Event → ℕ → ℕ → Dict Bytes → Db → Result (ℕ × Db) → Captured × Store
finish_capture inside device_id owner_id e retention now files db integrity_error =
    (failed, record { db = db; files = files })
finish_capture inside device_id owner_id e retention now files db (ok (mid, db')) =
    let pruned = prune_theft_media (record_audit db' e now) device_id retention in
    (stored mid, record { db = pruned.1; files = remove_each inside pruned.0 files })

-- `digits` is `str` of a number, `drawn` the eight digits that `uuid4` gave, `meta` the text of the
-- normalised location.
module _ (digits : ℕ → Text) (meta_of : Kind → Bytes → Option Text) (inside : Text → Bool) where
  unfoldable pub path_of : Text → Kind → ℕ → Text → Text
  path_of device_id kind now drawn =
      device_id
      ++ b'/' ∷ (name_of kind ++ b'-' ∷ (digits now ++ b'-' ∷ (drawn ++ b'.' ∷ ext_of kind)))

  abbrev keep_bytes :
      Text → ℕ → Kind → Text → ℕ → ℕ → Text → Store → Option Bytes → Captured × Store
  keep_bytes device_id owner_id kind trigger retention now drawn s none = (failed, s)
  keep_bytes device_id owner_id kind trigger retention now drawn s (some buf) =
      let rel = path_of device_id kind now drawn in
      let e : Event = record {
        action = codes "capture_" ++ name_of kind;
        owner_id = some owner_id;
        actor_id = none;
        actor_name = none;
        device_id = some device_id;
        detail = some (
            codes "trigger="
            ++ (trigger ++ (codes " size=" ++ (digits (length buf) ++ codes "B"))));
        node_url = none;
        ok = true;
      } in
      let media : Capture = record {
        device_id = device_id;
        owner_id = owner_id;
        kind = name_of kind;
        path = some rel;
        mime = some (mime_of kind);
        size = some (length buf);
        meta = meta_of kind buf;
        trigger = trigger;
      } in
      finish_capture inside device_id owner_id e retention now (put rel buf s.files) s.db
        (add_theft_media s.db media now)

  unfoldable pub capture_to_store :
      (Json → Bytes) → Text → ℕ → Kind → Text → ℕ → ℕ → Text → List Item → Store → Captured × Store
  unfolding captured remove_each path_of
  capture_to_store b64decode device_id owner_id kind trigger retention now drawn items s =
      keep_bytes device_id owner_id kind trigger retention now drawn s (captured b64decode items)
