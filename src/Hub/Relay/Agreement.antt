-- ===== src/Hub/Relay/Agreement.antt =====
-- hub/app.py: the relay sends a request to the node that the pages name for the device.
use vortex_portal.Base.{
  ℕ, ◌≡◌, refl, ap, Bool, true, false, ◌&&◌, Option, none, some, List, [], ◌∷◌, arith, Bool-cases,
  All, leb, ◌-◌, max, inl, inr,
}
use vortex_portal.Base.Text.{Text, text_eq_iff, contains, non_empty, rstrip_slash}
use vortex_portal.Base.Table.{find}
use vortex_portal.Db.Schema.{Db, DevicePresence}
use vortex_portal.Db.Nodes.{present, url_of, get_device_presence}
use vortex_portal.Router.Registry.{Registry, online_ids}
use vortex_portal.Hub.Relay.{
  relay_for, other_than, other_node_for, relay_to, relay_device, relay_target, target_of,
}

-- The presence rows have URLs as `publish_device_presence` cleans them: not empty behind the slashes.
abbrev pub HasHost : DevicePresence → Type 0
HasHost r = non_empty (rstrip_slash r.node_url) ≡ true

abbrev pub HasHosts : Db → Type 0
HasHosts db = All HasHost db.device_presence

find-HasHost :
    (p : DevicePresence → Bool) (rows : List DevicePresence) (r : DevicePresence)
    → All HasHost rows
    → find p rows ≡ some r
    → HasHost r
unfolding find
find-HasHost p [] r h e = ground arith
find-HasHost p (x ∷ rows) r h e = ground (arith, h.0, find-HasHost p rows r h.1)

relay_to-agrees :
    (here : Text) (o : Option DevicePresence)
    → ((r : DevicePresence) → o ≡ some r → HasHost r)
    → relay_to here (url_of o) ≡ other_than here (url_of o)
relay_to-agrees here none h = refl
relay_to-agrees here (some r) h = go r.node_url (h r refl)
  where
    go :
        (node : Text)
        → non_empty (rstrip_slash node) ≡ true
        → relay_to here (some node) ≡ other_than here (some node)
    go [] k = refl
    go (c ∷ node) k = ground (arith, text_eq_iff (rstrip_slash (c ∷ node)) here)

abbrev is_fresh : Text → ℕ → DevicePresence → Bool
is_fresh device_id now r = present device_id r && leb (now - max 45 90) r.last_seen

-- Where a request for the path goes, by the node that `_other_node_for` names for its device.
abbrev pub named_target : Text → Registry → Db → Text → Text → ℕ → Option Text → Option Text
named_target url registry db path query now none = none
named_target url registry db path query now (some device_id) =
    target_of path query (other_node_for url registry db device_id now)

relay_for-agrees :
    (url path query : Text) (registry : Registry) (db : Db) (now : ℕ) (o : Option Text)
    → HasHosts db
    → target_of path query (relay_for url registry db now o)
      ≡ named_target url registry db path query now o
unfolding other_node_for get_device_presence
relay_for-agrees url path query registry db now none hosts = refl
relay_for-agrees url path query registry db now (some device_id) hosts =
    ap (target_of path query) (elim (Bool-cases (contains device_id (online_ids registry))) [
      | inl y ↦ rw y refl
      | inr n ↦ rw n (
          relay_to-agrees (rstrip_slash url) (find (is_fresh device_id now) db.device_presence)
            (λ r e. find-HasHost (is_fresh device_id now) db.device_presence r hosts e))
    ])

-- The relay and the pages agree: a request that is not relayed yet goes to exactly the node that
-- `_other_node_for` names for its device, under the same path and query, and stays here if that
-- names none or if its path is not one that only an agent can answer; a request that another node
-- has relayed is never relayed again, whatever its path.
pub relay_target-agrees :
    (url path query : Text) (registry : Registry) (db : Db) (now : ℕ)
    → HasHosts db
    → (relay_target url registry db path query false now
        ≡ named_target url registry db path query now (relay_device path))
      × (relay_target url registry db path query true now ≡ none)
unfolding relay_target
relay_target-agrees url path query registry db now hosts =
    (relay_for-agrees url path query registry db now (relay_device path) hosts, refl)
