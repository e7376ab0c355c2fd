-- ===== src/Db/Nodes.antt =====
-- hub/db.py, "Node endpoints" and "device->node presence": the heartbeats of the hub's nodes.
use vortex_portal.Base.{
  ℕ, ◌-◌, max, Bool, false, ◌&&◌, ◌||◌, not, Option, none, some, List, [], ◌∷◌, ◌++◌, if◌then◌else◌,
  ltb, leb, ◌==◌, map,
}
use vortex_portal.Base.Text.{Text, text_eq, strip, rstrip_slash, non_empty}
use vortex_portal.Base.Table.{find, select, delete, update}
use vortex_portal.Base.Sort.{order_by}
use vortex_portal.Db.Schema.{
  Db, Device, NodeEndpoint, DevicePresence, Result, ok, integrity_error, device_exists,
}
use vortex_portal.Db.Tokens.{clean_label}

-- (url or "").strip().rstrip("/")
unfoldable pub clean_url : Text → Text
clean_url url = rstrip_slash (strip url)

-- INSERT … ON CONFLICT(url) DO UPDATE
upsert_node : List NodeEndpoint → NodeEndpoint → Option NodeEndpoint → List NodeEndpoint
upsert_node rows new none = rows ++ new ∷ []
upsert_node rows new (some _) = update (λ r. text_eq r.url new.url) (λ _. new) rows

unfoldable pub publish_node_endpoint : Db → Text → Option Text → ℕ → Db
unfolding upsert_node
publish_node_endpoint db url label now =
    let url' = clean_url url in
    let new : NodeEndpoint = record { url = url'; label = clean_label label; last_seen = now } in
    if not (non_empty url') then db else (record db {
      node_endpoints =
          upsert_node db.node_endpoints new
            (find (λ (r : NodeEndpoint). text_eq r.url url') db.node_endpoints);
    })

-- A cutoff below 0 lets every row through, as 0 does.
unfoldable pub list_node_endpoints : Db → ℕ → ℕ → List NodeEndpoint
list_node_endpoints db max_age now =
    order_by (λ (a b : NodeEndpoint). ltb b.last_seen a.last_seen)
      (select (λ (r : NodeEndpoint). leb (now - max 30 max_age) r.last_seen) db.node_endpoints)

-- WHERE device_id = ?
abbrev pub present : Text → DevicePresence → Bool
present device_id r = text_eq r.device_id device_id

upsert_presence : Db → DevicePresence → Option DevicePresence → Result Db
upsert_presence db new (some _) =
    ok
      (record db { device_presence = update (present new.device_id) (λ _. new) db.device_presence })
upsert_presence db new none =
    if device_exists db new.device_id
    then ok (record db { device_presence = db.device_presence ++ new ∷ [] })
    else integrity_error

unfoldable pub publish_device_presence : Db → Text → Text → ℕ → Result Db
unfolding upsert_presence
publish_device_presence db device_id node_url now =
    let url = clean_url node_url in
    if not (non_empty device_id) || not (non_empty url)
    then ok db
    else upsert_presence db (record { device_id = device_id; node_url = url; last_seen = now })
        (find (present device_id) db.device_presence)

unfoldable pub clear_device_presence : Db → Text → Text → Db
clear_device_presence db device_id node_url = record db {
  device_presence =
      delete
        (λ (r : DevicePresence).
          text_eq r.device_id device_id && text_eq r.node_url (clean_url node_url))
        db.device_presence;
}

-- The JOIN with `devices`, whose `id` is a primary key, restricted to one owner.
abbrev pub joined : ℕ → Option Device → Bool
joined owner_id none = false
joined owner_id (some d) = d.owner_id == owner_id

-- The dictionary {device_id: node_url}, as its pairs; `device_id` is a primary key.
unfoldable pub presence_for_user : Db → ℕ → ℕ → ℕ → List (Text × Text)
presence_for_user db owner_id max_age now =
    map (λ r. (r.device_id, r.node_url))
      (select
        (λ (r : DevicePresence).
          joined owner_id (find (λ (d : Device). text_eq d.id r.device_id) db.devices)
          && leb (now - max 45 max_age) r.last_seen)
        db.device_presence)

abbrev pub url_of : Option DevicePresence → Option Text
url_of none = none
url_of (some r) = some r.node_url

unfoldable pub get_device_presence : Db → Text → ℕ → ℕ → Option Text
get_device_presence db device_id max_age now =
    url_of
      (find (λ r. present device_id r && leb (now - max 45 max_age) r.last_seen) db.device_presence)
