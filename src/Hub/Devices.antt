-- ===== src/Hub/Devices.antt =====
-- hub/app.py: the pages and calls about one device, for the user who is signed in. A handler that
-- asks the agent gives the registry with the frames it has sent; the id `rid` that `uuid4` draws for
-- the request, what the agent answers to it, and `str` of an error are arguments.
pub mod Hidden
use vortex_portal.Base.{
  ℕ, Bool, true, false, ◌&&◌, ◌||◌, not, Option, none, some, List, [], ◌∷◌, ◌++◌, if◌then◌else◌,
  is_some, take,
}
use vortex_portal.Base.Text.{
  Text, codes, text_eq, contains, non_empty, rstrip_slash, strip, or_none, or_empty,
}
use vortex_portal.Base.Json.{
  Json, null, bool, num, negative, text, arr, obj, Items, nil, cons, Fields, end, field, lookup,
  truthy,
}
use vortex_portal.Base.Dict.{Dict, get, remove}
use vortex_portal.Db.Schema.{Db, User, Device, TheftMedia, Result, ok, integrity_error}
use vortex_portal.Db.Devices.{get_device_for_user, list_devices, update_device_name, delete_device}
use vortex_portal.Db.Tokens.{create_account_token, revoke_account_token}
use vortex_portal.Db.Theft.{get_theft_media, delete_theft_media}
use vortex_portal.Db.Audit.{Event, record_audit}
use vortex_portal.Router.Connection.{
  Bytes, Connection, Reply, value, agent_error, timeout, has_key, start_request, start_upload,
  finish_request,
}
use vortex_portal.Router.Registry.{Registry, write, get_conn, online_ids}
use vortex_portal.Hub.Enrolment.{clean_name}
use vortex_portal.Hub.Theft.{event_of}
use vortex_portal.Hub.Relay.{elsewhere_map, offline_detail}

-- What a handler answers: a status, the 500 of an exception included, a redirection, JSON with
-- status 200, the page of a device, or a file with its MIME type.
pub data Response : Type 0 where
  status : ℕ → Response
  redirect : Text → Response
  body : Json → Response
  device_page : Device → Bool → Response
  content : Bytes → Json → Response

-- The 404 of a device that the user does not have, and the 503 of one without a connection here.
abbrev pub owned : Option Device → Response → Response
owned none r = status 404
owned (some d) r = r

-- A call passed on to the agent, for the device of the user and its connection: the 404 again,
-- `offline` without a connection, else the call over it.
abbrev pub proxied :
    Option Device → Option ℕ → Registry → Response → (ℕ → Response × Registry) → Response × Registry
proxied none conn registry offline call = (status 404, registry)
proxied (some d) none registry offline call = (offline, registry)
proxied (some d) (some ref) registry offline call = call ref

-- `conn.request` over a connection of the registry, to its end: its frame is sent, and the entry of
-- its future is gone again.
abbrev pub asked : ℕ → Text → Text → Fields → Registry → Registry
asked ref rid op args registry = record registry {
  heap =
      write ref (finish_request rid (start_request rid op args (registry.heap ref))).1
        registry.heap;
}

-- `conn.upload`: the request, the chunks that are not empty, and the end of the stream.
abbrev pub uploaded : ℕ → Text → Text → Fields → List Bytes → Registry → Registry
uploaded ref rid op args chunks registry = record registry {
  heap =
      write ref (finish_request rid (start_upload rid op args chunks (registry.heap ref))).1
        registry.heap;
}

abbrev ok_result : Json → Response
ok_result v = body (obj (field (codes "ok") (bool true) (field (codes "result") v end)))

abbrev ok_error : Text → Response
ok_error e = body (obj (field (codes "ok") (bool false) (field (codes "error") (text e) end)))

abbrev manage_page : Bool → Option Device → Response
manage_page online none = status 404
manage_page online (some d) = device_page d online

unfoldable pub device_manage : Db → Registry → ℕ → Text → Response
device_manage db registry user_id device_id =
    manage_page (contains device_id (online_ids registry))
      (get_device_for_user db device_id user_id)

abbrev page_of : Text → Bool → Response
page_of device_id false = status 404
page_of device_id true = redirect (codes "/devices/" ++ device_id)

unfoldable pub device_rename : Db → ℕ → Text → Text → Response × Db
unfolding clean_name
device_rename db user_id device_id given =
    let name = clean_name given in
    let changed = update_device_name db device_id user_id name in
    if not (non_empty name) then (status 400, db) else (page_of device_id changed.0, changed.1)

-- The socket of a deleted device is closed, so that its agent gives up.
abbrev close_unpaired : Option ℕ → Registry → Registry
close_unpaired none registry = registry
close_unpaired (some ref) registry = record registry {
  closes = registry.closes ++ (ref, 4001, codes "unpaired") ∷ [];
}

abbrev pub after_delete : Registry → Text → Bool × Db → Response × Db × Registry
after_delete registry device_id (false, db) = (status 404, db, registry)
after_delete registry device_id (true, db) =
    (redirect (codes "/"), db, close_unpaired (get_conn device_id registry) registry)

unfoldable pub device_delete : Db → Registry → ℕ → Text → Response × Db × Registry
device_delete db registry user_id device_id =
    after_delete registry device_id (delete_device db device_id user_id)

-- `result.get(...)` of a result that is no object raises.
abbrev fields_of : Json → Option Fields
fields_of (obj fs) = some fs
fields_of null = none
fields_of (bool b) = none
fields_of (num n) = none
fields_of (negative n) = none
fields_of (text t) = none
fields_of (arr vs) = none

abbrev get_or : Text → Json → Fields → Json
get_or key default fs = if has_key key fs then lookup key fs else default

-- Only a JSON object with a type is passed on to the agent.
abbrev pub is_command : Option Json → Bool
is_command none = false
is_command (some (obj fs)) = has_key (codes "type") fs
is_command (some null) = false
is_command (some (bool b)) = false
is_command (some (num n)) = false
is_command (some (negative n)) = false
is_command (some (text t)) = false
is_command (some (arr vs)) = false

abbrev input_answer : Reply → Response
input_answer (value v) = ok_result v
input_answer (agent_error e) = status 502
input_answer timeout = status 504

abbrev pub input_args : Option Json → Fields
input_args none = end
input_args (some cmd) = field (codes "command") cmd end

unfoldable pub device_input :
    Db → Registry → ℕ → Text → Option Json → Text → Reply → Response × Registry
device_input db registry user_id device_id cmd rid reply =
    proxied (get_device_for_user db device_id user_id) (get_conn device_id registry) registry
      (status 503)
      (λ ref.
        if is_command cmd
        then (input_answer reply, asked ref rid (codes "input") (input_args cmd) registry)
        else (status 400, registry))

-- `b64decode` is none where it raises.
abbrev image_of : (Json → Option Bytes) → Option Fields → Response
image_of b64decode none = status 500
image_of b64decode (some fs) = elim (b64decode (get_or (codes "data_b64") (text []) fs)) [
  | none ↦ status 500
  | some bytes ↦ content bytes (get_or (codes "content_type") (text (codes "image/jpeg")) fs)
]

abbrev thumb_answer : (Json → Option Bytes) → Reply → Response
thumb_answer b64decode (value v) = image_of b64decode (fields_of v)
thumb_answer b64decode (agent_error e) = status 404
thumb_answer b64decode timeout = status 500

abbrev pub thumb_args : Text → Json → Fields
thumb_args rel size = field (codes "path") (text rel) (field (codes "size") size end)

unfoldable pub device_thumb :
    (Json → Option Bytes)
    → Db
    → Registry
    → ℕ
    → Text
    → Text
    → Json
    → Text
    → Reply
    → Response × Registry
device_thumb b64decode db registry user_id device_id rel size rid reply =
    proxied (get_device_for_user db device_id user_id) (get_conn device_id registry) registry
      (status 503)
      (λ ref. (
        thumb_answer b64decode reply,
        asked ref rid (codes "thumbnail") (thumb_args rel size) registry,
      ))

-- PUT of a file: every end that the agent reports is audited.
abbrev write_event : User → Text → Text → Bool → Event
write_event user device_id rel done =
    record (event_of (codes "file_write") user device_id (some rel)) { ok = done }

abbrev upload_answer : Db → User → Text → Text → Reply → ℕ → Response × Db
upload_answer db user device_id rel (value v) now =
    (ok_result v, record_audit db (write_event user device_id rel true) now)
upload_answer db user device_id rel (agent_error e) now =
    (status 502, record_audit db (write_event user device_id rel false) now)
upload_answer db user device_id rel timeout now = (status 504, db)

-- The audit entry goes along with the answer; `size` is what `int` makes of the Content-Length
-- header, null without one.
abbrev pub upload_call :
    Db
    → Registry
    → User
    → Text
    → Text
    → Json
    → List Bytes
    → Text
    → Reply
    → ℕ
    → ℕ
    → Response × Db × Registry
upload_call db registry user device_id rel size chunks rid reply now ref =
    if not (non_empty rel) || not (text_eq (rstrip_slash rel) rel)
    then (status 400, db, registry)
    else let (answer, db') = upload_answer db user device_id rel reply now in
      (answer, db', uploaded ref rid (codes "write_file") (thumb_args rel size) chunks registry)

abbrev upload_to :
    Db
    → Registry
    → User
    → Text
    → Text
    → Json
    → List Bytes
    → Text
    → Reply
    → ℕ
    → Option ℕ
    → Response × Db × Registry
upload_to db registry user device_id rel size chunks rid reply now none = (status 503, db, registry)
upload_to db registry user device_id rel size chunks rid reply now (some ref) =
    upload_call db registry user device_id rel size chunks rid reply now ref

abbrev pub upload_device :
    Db
    → Registry
    → User
    → Text
    → Text
    → Json
    → List Bytes
    → Text
    → Reply
    → ℕ
    → Option Device
    → Response × Db × Registry
upload_device db registry user device_id rel size chunks rid reply now none =
    (status 404, db, registry)
upload_device db registry user device_id rel size chunks rid reply now (some d) =
    upload_to db registry user device_id rel size chunks rid reply now (get_conn device_id registry)

unfoldable pub device_upload :
    Db
    → Registry
    → User
    → Text
    → Text
    → Json
    → List Bytes
    → Text
    → Reply
    → ℕ
    → Response × Db × Registry
device_upload db registry user device_id rel size chunks rid reply now =
    upload_device db registry user device_id rel size chunks rid reply now
      (get_device_for_user db device_id user.id)

-- The answers that carry the text of an error: `str_of` is `str`, `url` what `_resolve_public_url`
-- gives.
module _ (str_of : Json → Text) where
  abbrev info_answer : Reply → Response
  info_answer (value v) = ok_result v
  info_answer (agent_error e) = ok_error (str_of e)
  info_answer timeout = ok_error (codes "Agent did not respond in 15s")

  unfoldable pub api_device_info :
      Text → Db → Registry → ℕ → Text → Text → Reply → ℕ → Response × Registry
  api_device_info url db registry user_id device_id rid reply now =
      proxied (get_device_for_user db device_id user_id) (get_conn device_id registry) registry
        (ok_error (offline_detail url registry db device_id now))
        (λ ref. (info_answer reply, asked ref rid (codes "device_info") end registry))

  abbrev cameras_answer : Reply → Response
  cameras_answer (value v) = body v
  cameras_answer (agent_error e) =
      body (obj (field (codes "error") (text (str_of e)) (field (codes "cameras") (arr nil) end)))
  cameras_answer timeout = status 500

  unfoldable pub api_device_cameras : Db → Registry → ℕ → Text → Text → Reply → Response × Registry
  api_device_cameras db registry user_id device_id rid reply =
      proxied (get_device_for_user db device_id user_id) (get_conn device_id registry) registry
        (status 503)
        (λ ref. (cameras_answer reply, asked ref rid (codes "camera_info") end registry))

  abbrev size_answer : Reply → Response
  size_answer (value v) = ok_result v
  size_answer (agent_error e) = ok_error (str_of e)
  size_answer timeout = status 504

  abbrev pub size_args : Fields
  size_args =
      field (codes "command") (obj (field (codes "type") (text (codes "screen_size")) end)) end

  unfoldable pub api_device_screen_size :
      Db → Registry → ℕ → Text → Text → Reply → Response × Registry
  api_device_screen_size db registry user_id device_id rid reply =
      proxied (get_device_for_user db device_id user_id) (get_conn device_id registry) registry
        (status 503) (λ ref. (size_answer reply, asked ref rid (codes "input") size_args registry))

-- The devices of a user that are online here, as the code's set in the order of the list.
unfoldable pub online_of : Registry → List Device → List Text
online_of registry [] = []
online_of registry (d ∷ ds) =
    let rest = online_of registry ds in
    if contains d.id (online_ids registry) then d.id ∷ rest else rest

abbrev texts : List Text → Items
texts [] = nil
texts (t ∷ ts) = cons (text t) (texts ts)

abbrev pub dict_of : Dict Text → Fields
dict_of [] = end
dict_of ((k, v) ∷ d) = field k (text v) (dict_of d)

unfoldable pub api_online : Text → Db → Registry → ℕ → ℕ → Response
unfolding online_of
api_online url db registry user_id now = body (
    obj (
      field (codes "online") (arr (texts (online_of registry (list_devices db user_id)))) (
        field (codes "elsewhere") (obj (dict_of (elsewhere_map url registry db user_id now))) end)))

-- A device that does not answer is null.
abbrev stats_of : Reply → Json
stats_of (value v) = v
stats_of (agent_error e) = null
stats_of timeout = null

abbrev stats_fields : (Text → Reply) → List Text → Fields
stats_fields replies [] = end
stats_fields replies (d ∷ ds) = field d (stats_of (replies d)) (stats_fields replies ds)

-- Each device's connection is asked, with an id of its own; the requests run side by side.
abbrev ask_one : Text → Registry → Option ℕ → Registry
ask_one rid registry none = registry
ask_one rid registry (some ref) = asked ref rid (codes "system_info") end registry

unfoldable ask_each : (Text → Text) → List Text → Registry → Registry
ask_each drawn [] registry = registry
ask_each drawn (d ∷ ds) registry =
    ask_each drawn ds (ask_one (drawn d) registry (get_conn d registry))

unfoldable pub api_devices_stats :
    Db → Registry → ℕ → (Text → Text) → (Text → Reply) → Response × Registry
unfolding online_of ask_each
api_devices_stats db registry user_id drawn replies =
    let online = online_of registry (list_devices db user_id) in
    (
      body (obj (field (codes "stats") (obj (stats_fields replies online)) end)),
      ask_each drawn online registry,
    )

-- The captures of Theft Mode: `inside` tells that a path resolves below the media root, and the
-- root's files are a dictionary.
module _ (inside : Text → Bool) where
  abbrev media_answer : Option Text → Option Bytes → Response
  media_answer mime none = status 404
  media_answer mime (some bytes) =
      content bytes (
        text
          (if non_empty (or_empty mime) then or_empty mime else codes "application/octet-stream"))

  abbrev pub media_page : Dict Bytes → Text → Option TheftMedia → Response
  media_page files device_id none = status 404
  media_page files device_id (some m) =
      if not (text_eq m.device_id device_id) || not (non_empty (or_empty m.path))
      then status 404
      else if not (inside (or_empty m.path))
      then status 404
      else media_answer m.mime (get (or_empty m.path) files)

  unfoldable pub theft_media_get : Db → Dict Bytes → ℕ → Text → ℕ → Response
  theft_media_get db files user_id device_id media_id =
      owned (get_device_for_user db device_id user_id)
        (media_page files device_id (get_theft_media db media_id user_id))

  abbrev unlink : Option TheftMedia → Dict Bytes → Dict Bytes
  unlink none files = files
  unlink (some m) files =
      if non_empty (or_empty m.path) && inside (or_empty m.path)
      then remove (or_empty m.path) files
      else files

  abbrev pub delete_media :
      Db → Dict Bytes → ℕ → Text → ℕ → Option Device → Response × Db × Dict Bytes
  delete_media db files user_id device_id media_id none = (status 404, db, files)
  delete_media db files user_id device_id media_id (some d) =
      let deleted = delete_theft_media db media_id user_id in
      (
        redirect (codes "/devices/" ++ (device_id ++ codes "/theft")),
        deleted.1,
        unlink deleted.0 files,
      )

  unfoldable pub theft_media_delete : Db → Dict Bytes → ℕ → Text → ℕ → Response × Db × Dict Bytes
  theft_media_delete db files user_id device_id media_id =
      delete_media db files user_id device_id media_id (get_device_for_user db device_id user_id)
