-- ===== src/Hub/Relay.antt =====
-- hub/app.py: where this node can be reached, which node holds a device, and the relay of a request
-- to that node (`_cross_node_relay`). `lower` is `str.lower`; a path has no line break.
pub mod Agreement
use vortex_portal.Base.{
  ℕ, Bool, true, false, ◌&&◌, ◌||◌, not, Option, none, some, List, [], ◌∷◌, ◌++◌, if◌then◌else◌,
  map, ◌==◌, is_some,
}
use vortex_portal.Base.Text.{
  Text, codes, text_eq, contains, non_empty, rstrip_slash, starts_with, strip, or_else, or_empty,
}
use vortex_portal.Base.Dict.{Dict}
use vortex_portal.Db.Schema.{Db, Device}
use vortex_portal.Db.Devices.{list_devices}
use vortex_portal.Db.Nodes.{get_device_presence, presence_for_user}
use vortex_portal.Router.Registry.{Registry, online_ids}

-- h.split(":", 1)[0]
unfoldable pub before_colon : Text → Text
before_colon [] = []
before_colon (c ∷ s) = let rest = before_colon s in if c == b':' then [] else c ∷ rest

-- h.split(":", 1)[0] where there is a colon, and h otherwise, are the same text.
unfoldable pub host_name : Text → Text
unfolding before_colon
host_name h = if starts_with (codes "[") h then h else before_colon h

unfoldable pub is_loopback_host : (Text → Text) → Text → Bool
unfolding host_name
is_loopback_host lower [] = true
is_loopback_host lower (c ∷ s) =
    let h = host_name (lower (c ∷ s)) in
    contains h (codes "localhost" ∷ codes "0.0.0.0" ∷ codes "::1" ∷ codes "[::1]" ∷ [])
    || starts_with (codes "127.") h

-- What `_hub_public_url` reads of a request; a missing header is empty.
pub record Reached : Type 0 where
  pub forwarded_proto : Text
  pub forwarded_host : Text
  pub host : Text
  pub scheme : Text
  pub netloc : Text

-- The URL, and _PUBLIC_URL_CACHE afterwards.
unfoldable pub hub_public_url : (Text → Text) → Text → Reached → Text → Text × Text
unfolding is_loopback_host
hub_public_url lower override r cache =
    let host = or_else (or_else r.forwarded_host r.host) r.netloc in
    let url = or_else r.forwarded_proto r.scheme ++ (codes "://" ++ host) in
    if non_empty override
    then (override, cache)
    else (url, if is_loopback_host lower host then cache else url)

-- `file` is the text of the launcher's file, `detected` the environment's.
unfoldable pub resolve_public_url : Text → Text → Text → Text → Text
resolve_public_url override file cache detected =
    or_else override
      (or_else (rstrip_slash (strip file)) (or_else cache (rstrip_slash (strip detected))))

-- The tests of `_other_node_for` and of the relay on the presence that was found; an empty URL is
-- no node.
abbrev pub other_than : Text → Option Text → Option Text
other_than here none = none
other_than here (some []) = none
other_than here (some (c ∷ node)) =
    if non_empty here && text_eq (rstrip_slash (c ∷ node)) here
    then none
    else some (rstrip_slash (c ∷ node))

-- `url` is what `_resolve_public_url()` gives, `max_age` the 90 seconds of the default.
unfoldable pub other_node_for : Text → Registry → Db → Text → ℕ → Option Text
other_node_for url registry db device_id now =
    if contains device_id (online_ids registry)
    then none
    else other_than (rstrip_slash url) (get_device_presence db device_id 90 now)

unfoldable pub offline_detail : Text → Registry → Db → Text → ℕ → Text
unfolding other_node_for
offline_detail url registry db device_id now = elim (other_node_for url registry db device_id now) [
  | none ↦ codes "Device offline (no agent connected to any node — start serve.sh on the device)."
  | some other ↦ elim other [
    | [] ↦ codes "Device offline (no agent connected to any node — start serve.sh on the device)."
    | c ∷ s ↦
        codes "This device's live connection is on another node. Control it there: "
        ++ ((c ∷ s) ++ (codes "/devices/" ++ device_id))
  ]
]

-- The dictionary of the devices that another node holds, as its pairs.
unfoldable pub elsewhere_of : Text → List Text → List (Text × Text) → Dict Text
elsewhere_of here online [] = []
elsewhere_of here online ((device_id, url) ∷ rows) =
    let rest = elsewhere_of here online rows in
    let u = rstrip_slash url in
    if contains device_id online
    then rest
    else if non_empty u && not (text_eq u here)
    then (device_id, u) ∷ rest
    else rest

unfoldable pub elsewhere_map : Text → Registry → Db → ℕ → ℕ → Dict Text
unfolding elsewhere_of
elsewhere_map url registry db owner_id now =
    elsewhere_of (rstrip_slash url) (online_ids registry) (presence_for_user db owner_id 90 now)

-- The rest of a text behind a prefix.
unfoldable pub behind : Text → Text → Option Text
behind [] s = some s
behind (p ∷ ps) [] = none
behind (p ∷ ps) (c ∷ s) = let rest = behind ps s in if p == c then rest else none

-- The characters before the first slash, and the rest from it on.
unfoldable pub segment : Text → Text × Text
segment [] = ([], [])
segment (c ∷ s) = let rest = segment s in if c == b'/' then ([], c ∷ s) else (c ∷ rest.0, rest.1)

-- The two alternatives of _RELAY_RE behind the device.
unfoldable pub is_agent_path : Text → Bool
is_agent_path s =
    text_eq s (codes "/files")
    || starts_with (codes "/files/") s
    || starts_with (codes "/camera/") s
    || starts_with (codes "/screen/") s
    || text_eq s (codes "/input")
    || text_eq s (codes "/theft/capture")
    || starts_with (codes "/thumb/") s
    || text_eq s (codes "/direct")

unfoldable pub is_agent_api : Text → Bool
is_agent_api s =
    text_eq s (codes "/info") || text_eq s (codes "/screen-size") || text_eq s (codes "/cameras")

abbrev pub device_in : (Text → Bool) → Option Text → Option Text
device_in test none = none
device_in test (some s) =
    if non_empty (segment s).0 && test (segment s).1 then some (segment s).0 else none

-- _RELAY_RE.match(path), as the device that it finds
unfoldable pub relay_device : Text → Option Text
unfolding is_agent_path is_agent_api segment behind
relay_device path =
    let first = device_in is_agent_path (behind (codes "/devices/") path) in
    if is_some first then first else device_in is_agent_api (behind (codes "/api/devices/") path)

-- The target of a relayed request; none where the node answers itself. `hop` says that the request
-- carries the relay's header, which every relayed request does.
abbrev pub relay_to : Text → Option Text → Option Text
relay_to here none = none
relay_to here (some []) = none
relay_to here (some (c ∷ node)) =
    if text_eq (rstrip_slash (c ∷ node)) here then none else some (rstrip_slash (c ∷ node))

abbrev pub relay_for : Text → Registry → Db → ℕ → Option Text → Option Text
relay_for url registry db now none = none
relay_for url registry db now (some device_id) =
    if contains device_id (online_ids registry)
    then none
    else relay_to (rstrip_slash url) (get_device_presence db device_id 90 now)

abbrev pub target_of : Text → Text → Option Text → Option Text
target_of path query none = none
target_of path query (some node) =
    some (node ++ (path ++ (if non_empty query then b'?' ∷ query else [])))

unfoldable pub relay_target : Text → Registry → Db → Text → Text → Bool → ℕ → Option Text
unfolding relay_device
relay_target url registry db path query hop now =
    if hop then none else target_of path query (relay_for url registry db now (relay_device path))
