-- ===== src/Hub/Files.antt =====
-- hub/app.py: `_browse_or_download` and `_stream_file_from_agent`. The replies of the two requests
-- to the agent are arguments.
pub mod Download
use vortex_portal.Base.{
  ℕ, Bool, true, false, ◌&&◌, not, Option, none, some, List, [], ◌∷◌, ◌++◌, if◌then◌else◌,
}
use vortex_portal.Base.Text.{Text, codes, non_empty}
use vortex_portal.Base.Json.{
  Json, null, bool, num, negative, text, arr, obj, Fields, lookup, truthy,
}
use vortex_portal.Db.Schema.{Db, Device}
use vortex_portal.Db.Devices.{get_device_for_user}
use vortex_portal.Router.Connection.{
  Bytes, Connection, Frame, json, binary, Item, message, chunk, closing, Turn, yields, yields_last,
  returns, raises, take_turn, Outcome, done, type_error, handle_incoming, handle_incoming_binary,
  is_type, Reply, value, agent_error, timeout,
}
use vortex_portal.Router.Registry.{Registry, get_conn}

-- What the browser gets: an error page or status, a redirection to the path with a slash, the page
-- of a directory, or the file's stream.
pub data Page : Type 0 where
  status : ℕ → Page
  to_directory : Page
  listing : Json → Page
  download : Fields → Page

-- The `entries` of a listing; a result that is no object raises.
abbrev pub list_page : Reply → Page
list_page (value (obj fs)) = listing (lookup (codes "entries") fs)
list_page (value null) = status 500
list_page (value (bool b)) = status 500
list_page (value (num n)) = status 500
list_page (value (negative n)) = status 500
list_page (value (text t)) = status 500
list_page (value (arr vs)) = status 500
list_page (agent_error e) = status 502
list_page timeout = status 500

abbrev pub stat_page : Text → Bool → Reply → Fields → Page
stat_page rel is_dir_hint listed info =
    if not (truthy (lookup (codes "exists") info))
    then status 404
    else if truthy (lookup (codes "is_dir") info)
    then (if non_empty rel && not is_dir_hint then to_directory else list_page listed)
    else download info

abbrev pub answer_stat : Text → Bool → Reply → Reply → Page
answer_stat rel is_dir_hint listed (value (obj info)) = stat_page rel is_dir_hint listed info
answer_stat rel is_dir_hint listed (value null) = status 500
answer_stat rel is_dir_hint listed (value (bool b)) = status 500
answer_stat rel is_dir_hint listed (value (num n)) = status 500
answer_stat rel is_dir_hint listed (value (negative n)) = status 500
answer_stat rel is_dir_hint listed (value (text t)) = status 500
answer_stat rel is_dir_hint listed (value (arr vs)) = status 500
answer_stat rel is_dir_hint listed (agent_error e) = status 502
answer_stat rel is_dir_hint listed timeout = status 500

abbrev browse_conn : Text → Bool → Reply → Reply → Option ℕ → Page
browse_conn rel is_dir_hint stat listed none = status 503
browse_conn rel is_dir_hint stat listed (some ref) = answer_stat rel is_dir_hint listed stat

abbrev browse_device : Registry → Text → Text → Bool → Reply → Reply → Option Device → Page
browse_device registry device_id rel is_dir_hint stat listed none = status 404
browse_device registry device_id rel is_dir_hint stat listed (some d) =
    browse_conn rel is_dir_hint stat listed (get_conn device_id registry)

unfoldable pub browse_or_download : Db → Registry → ℕ → Text → Text → Bool → Reply → Reply → Page
browse_or_download db registry user_id device_id rel is_dir_hint stat listed =
    browse_device registry device_id rel is_dir_hint stat listed
      (get_device_for_user db device_id user_id)

-- The bytes that a message adds to the download: base64 in `data`, which `b64decode` reads.
abbrev message_bytes : (Json → Bytes) → Fields → Bytes
message_bytes b64decode msg =
    if is_type (codes "stream_chunk") msg
    then (if truthy (lookup (codes "data") msg) then b64decode (lookup (codes "data") msg) else [])
    else []

abbrev item_bytes : (Json → Bytes) → Item → Bytes
item_bytes b64decode (message msg) = message_bytes b64decode msg
item_bytes b64decode (chunk r bytes) = bytes
item_bytes b64decode closing = []

-- The body of the answer, from the items that the stream's queue gives.
unfoldable pub body_of : (Json → Bytes) → List Item → Bytes
unfolding take_turn
body_of b64decode [] = []
body_of b64decode (item ∷ items) = elim (take_turn item) [
  | yields i ↦ item_bytes b64decode i ++ body_of b64decode items
  | yields_last i ↦ item_bytes b64decode i
  | returns ↦ []
  | raises e ↦ []
]

-- The frames of an agent's socket, one after the other.
unfoldable pub receive_frame : Frame → Connection → Outcome
receive_frame (json msg) c = handle_incoming msg c
receive_frame (binary bytes) c = handle_incoming_binary bytes c

abbrev pub follow : Outcome → (Connection → Outcome) → Outcome
follow (done c) f = f c
follow type_error f = type_error

unfoldable pub receive_all : List Frame → Connection → Outcome
unfolding receive_frame
receive_all [] c = done c
receive_all (frame ∷ frames) c = follow (receive_frame frame c) (receive_all frames)
