-- ===== src/Hub/Agents/Superseded.antt =====
-- hub/app.py, `ws_agent`: the cleanup of a handler whose device has connected again.
use vortex_portal.Base.{
  ℕ, ◌≡◌, ◌≢◌, refl, Bool, true, false, ◌&&◌, Option, none, some, List, [], ◌∷◌, leb, arith, ◌-◌,
  max,
}
use vortex_portal.Base.Text.{Text, text_eq, text_eq_iff, non_empty}
use vortex_portal.Base.Table.{find, delete, find-holds}
use vortex_portal.Db.Schema.{Db, DevicePresence}
use vortex_portal.Db.Nodes.{present, url_of, clean_url, get_device_presence, clear_device_presence}
use vortex_portal.Router.Registry.{unregister, get_conn}
use vortex_portal.Hub.Agents.{Node, leave}

find-delete_holds {ℓ} :
    {A : Type ℓ} (q p : A → Bool) (xs : List A) (a : A)
    → find q (delete p xs) ≡ some a
    → p a ≡ false
unfolding find delete
find-delete_holds q p [] a h = ground arith
find-delete_holds q p (x ∷ xs) a h = ground (arith, find-delete_holds q p xs a)

hidden :
    (o : Option DevicePresence) (url : Text)
    → ((r : DevicePresence) → o ≡ some r → r.node_url ≢ url)
    → url_of o ≢ some url
hidden none url h = ground arith
hidden (some r) url h = ground (arith, h r refl)

get_device_presence-clear :
    (db : Db) (url device_id : Text) (max_age now : ℕ)
    → get_device_presence (clear_device_presence db device_id url) device_id max_age now
      ≢ some (clean_url url)
unfolding get_device_presence clear_device_presence
get_device_presence-clear db url device_id max_age now =
    let fresh =
      λ (r : DevicePresence). present device_id r && leb (now - max 45 max_age) r.last_seen in
    let gone =
      λ (r : DevicePresence). text_eq r.device_id device_id && text_eq r.node_url (clean_url url) in
    hidden (find fresh (delete gone db.device_presence)) (clean_url url) (λ r e. ground (
      arith,
      find-holds fresh (delete gone db.device_presence) r e,
      find-delete_holds fresh gone db.device_presence r e,
      text_eq_iff r.node_url (clean_url url),
    ))

-- When a device has connected again to the same node, the cleanup of its old handler leaves the new
-- connection registered, and takes away the presence that says the device is on this node, which
-- the new handler published under the same URL.
pub leave-superseded :
    (node : Node) (url device_id : Text) (old new max_age now : ℕ)
    → (node.registry.heap old).device_id ≡ device_id
    → get_conn device_id node.registry ≡ some new
    → new ≢ old
    → non_empty url ≡ true
    → (get_conn device_id (leave url old node).registry ≡ some new)
      × (get_device_presence (leave url old node).db device_id max_age now ≢ some (clean_url url))
unfolding leave unregister get_conn get_device_presence clear_device_presence
leave-superseded node url device_id old new max_age now d g n u =
    (ground arith, rw (u, d) (get_device_presence-clear node.db url device_id max_age now))
