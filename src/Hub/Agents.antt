-- ===== src/Hub/Agents.antt =====
-- hub/app.py, `ws_agent`: the life of an agent's socket on a node of the hub, cut into the joining,
-- one received frame, and the cleanup. `url` is what `_resolve_public_url()` gives, and `ref` the
-- number of the connection that the handler makes.
pub mod Superseded
use vortex_portal.Base.{
  ℕ, Bool, true, false, ◌&&◌, ◌||◌, not, Option, none, some, List, [], ◌∷◌, ◌++◌, if◌then◌else◌,
  map, is_some,
}
use vortex_portal.Base.Text.{Text, codes, strip, non_empty, or_empty}
use vortex_portal.Base.Json.{
  Json, null, bool, num, negative, text, arr, obj, Items, nil, cons, Fields, end, field, lookup,
  truthy,
}
use vortex_portal.Db.Schema.{Db, Device, NodeEndpoint, Result, ok, integrity_error}
use vortex_portal.Db.Devices.{get_device, authenticate_device, touch_device}
use vortex_portal.Db.Nodes.{publish_device_presence, clear_device_presence, list_node_endpoints}
use vortex_portal.Router.Connection.{
  Bytes, Connection, new_connection, is_type, send, Outcome, done, type_error, handle_incoming,
  handle_incoming_binary, Frame, json, binary,
}
use vortex_portal.Router.Registry.{Registry, write, register, unregister}

pub record Node : Type 0 where
  pub db : Db
  pub registry : Registry

-- value or "", as a text; none where the handler raises on another type
abbrev pub text_field : Json → Option Text
text_field (text t) = some t
text_field null = some []
text_field (bool b) = if b then none else some []
text_field (num n) = if truthy (num n) then none else some []
text_field (negative n) = none
text_field (arr vs) = if truthy (arr vs) then none else some []
text_field (obj fs) = if truthy (obj fs) then none else some []

-- How the handshake ends: a rejection with its error, an exception, or a joined node.
pub data Handshake : Type 0 where
  auth_fail : Text → Handshake
  crashed : Handshake
  joined : Device → Node → Handshake

abbrev publish : Text → Text → ℕ → Db → Db
publish url device_id now db = elim (publish_device_presence db device_id url now) [
  | ok db' ↦ db'
  | integrity_error ↦ db
]

unfoldable pub items_of : List Text → Items
items_of [] = nil
items_of (t ∷ ts) = cons (text t) (items_of ts)

-- The acknowledgement; the mesh credentials go along when both are set.
unfoldable pub ack_of : Text → List Text → Text → Text → Fields
unfolding items_of
ack_of name nodes sync_url sync_token =
    let mesh =
      if non_empty sync_url && non_empty sync_token
      then field (codes "sync_url") (text sync_url)
          (field (codes "sync_token") (text sync_token) end)
      else end in
    field (codes "type") (text (codes "auth_ok"))
      (field (codes "name") (text name) (field (codes "nodes") (arr (items_of nodes)) mesh))

unfoldable pub join : Text → Text → Text → ℕ → Text → Device → ℕ → Node → Node
unfolding ack_of send
join url sync_url sync_token ref device_id device now node =
    let fresh : Registry = record node.registry {
      heap = write ref (new_connection device_id device.owner_id device.name) node.registry.heap;
    } in
    let registry = register ref fresh in
    let touched = touch_device node.db device_id now in
    let db = if non_empty url then publish url device_id now touched else touched in
    let ack =
      ack_of device.name (map (λ (r : NodeEndpoint). r.url) (list_node_endpoints db 180 now))
        sync_url sync_token in
    (record {
      db = db;
      registry = record registry { heap = write ref (send ack (registry.heap ref)) registry.heap };
    })

module _ (hash_token : Text → Text) where
  abbrev pub enter_with : Text → Text → Text → ℕ → ℕ → Node → Text → Option Device → Handshake
  enter_with url sync_url sync_token ref now node device_id none =
      auth_fail (codes "invalid credentials")
  enter_with url sync_url sync_token ref now node device_id (some device) =
      joined device (join url sync_url sync_token ref device_id device now node)

  abbrev pub check_fields :
      Text → Text → Text → ℕ → ℕ → Node → Option Text → Option Text → Handshake
  check_fields url sync_url sync_token ref now node none token = crashed
  check_fields url sync_url sync_token ref now node (some id) none =
      if not (non_empty (strip id))
      then auth_fail (codes "missing fields")
      else if is_some (get_device node.db (strip id))
      then crashed
      else auth_fail (codes "invalid credentials")
  check_fields url sync_url sync_token ref now node (some id) (some token) =
      let device_id = strip id in
      if not (non_empty device_id) || not (non_empty token)
      then auth_fail (codes "missing fields")
      else enter_with url sync_url sync_token ref now node device_id
          (authenticate_device hash_token node.db device_id token)

  -- From the first frame, an object.
  unfoldable pub handshake : Text → Text → Text → ℕ → ℕ → Fields → Node → Handshake
  handshake url sync_url sync_token ref now first node =
      if is_type (codes "auth") first
      then check_fields url sync_url sync_token ref now node
          (text_field (lookup (codes "device_id") first))
          (text_field (lookup (codes "token") first))
      else auth_fail (codes "expected auth")

-- A frame as `ws.receive` gives it.
pub data Received : Type 0 where
  text_frame : Text → Received
  bytes_frame : Bytes → Received

abbrev settle : ℕ → Node → Outcome → Option Node
settle ref node type_error = none
settle ref node (done c) =
    some (record node { registry = record node.registry { heap = write ref c node.registry.heap } })

-- Text that is no JSON object is passed over.
abbrev take_message : ℕ → Node → Option Json → Option Node
take_message ref node (some (obj msg)) =
    settle ref node (handle_incoming msg (node.registry.heap ref))
take_message ref node (some v) = some node
take_message ref node none = some node

-- One frame; none where an exception ends the loop. `loads` is `json.loads`.
unfoldable pub receive : (Text → Option Json) → ℕ → ℕ → Received → Node → Option Node
receive loads ref now (text_frame t) node =
    take_message ref
      (record node { db = touch_device node.db (node.registry.heap ref).device_id now }) (loads t)
receive loads ref now (bytes_frame bytes) node =
    settle ref (record node { db = touch_device node.db (node.registry.heap ref).device_id now })
      (handle_incoming_binary bytes (node.registry.heap ref))

-- When the acknowledgement cannot be sent, the handler ends without touching the presence.
unfoldable pub drop_unacked : ℕ → Node → Node
drop_unacked ref node = record node { registry = unregister ref node.registry }

-- The `finally` of the loop.
unfoldable pub leave : Text → ℕ → Node → Node
leave url ref node = record {
  registry = unregister ref node.registry;
  db =
      if non_empty url
      then clear_device_presence node.db (node.registry.heap ref).device_id url
      else node.db;
}
