-- ===== src/Db/Purge/Visibility.antt =====
-- hub/db.py, `purge_expired`: the housekeeping removes only what no query shows any more.
use vortex_portal.Base.{ℕ, ◌-◌, ◌≤◌, ◌≡◌, ◌&&◌, arith, ltb, ap}
use vortex_portal.Base.Text.{Text}
use vortex_portal.Base.Table.{find, find-delete_keeps, select-delete_keeps}
use vortex_portal.Base.Sort.{order_by}
use vortex_portal.Db.Schema.{Db, PairingCode, DeviceLock, NodeEndpoint, DevicePresence}
use vortex_portal.Db.Sessions.{has_token, user_of, lookup_session}
use vortex_portal.Db.Pairing.{usable}
use vortex_portal.Db.Locks.{get_lock}
use vortex_portal.Db.Nodes.{list_node_endpoints, get_device_presence, url_of}
use vortex_portal.Db.Purge.{purge_expired}

module _ (hash_token : Text → Text) where
  -- No session lookup, now or later, answers otherwise after the housekeeping.
  lookup_session-purge :
      (db : Db) (token : Text) (now t : ℕ)
      → now ≤ t
      → lookup_session hash_token (purge_expired db now) token t
        ≡ lookup_session hash_token db token t
  unfolding lookup_session purge_expired
  lookup_session-purge db token now t h = ap user_of (
      find-delete_keeps (λ s. has_token (hash_token token) s && ltb t s.expires_at)
        (λ s. ltb s.expires_at now) db.sessions (λ a k. ground arith))

  -- Housekeeping at one time changes no answer at that time or later: not who a session stands
  -- for, who holds a device, what a pairing code redeems to, which nodes are listed or where a
  -- device is present, where node and presence lists look back an hour at most.
  pub purge_expired-invisible :
      (db : Db) (token device_id code : Text) (max_age now t : ℕ)
      → now ≤ t
      → max_age ≤ 3600
      → let db' = purge_expired db now in
        (lookup_session hash_token db' token t ≡ lookup_session hash_token db token t)
        × (get_lock db' device_id t ≡ get_lock db device_id t)
        × (find (usable code t) db'.pairing_codes ≡ find (usable code t) db.pairing_codes)
        × (list_node_endpoints db' max_age t ≡ list_node_endpoints db max_age t)
        × (get_device_presence db' device_id max_age t ≡ get_device_presence db device_id max_age t)
  unfolding purge_expired get_lock list_node_endpoints get_device_presence
  purge_expired-invisible db token device_id code max_age now t h old = (
    lookup_session-purge db token now t h,
    find-delete_keeps _ (λ (r : DeviceLock). ltb r.expires_at now) db.device_locks
        (λ a k. ground arith),
    find-delete_keeps _ (λ (r : PairingCode). ltb r.expires_at now) db.pairing_codes
        (λ a k. ground arith),
    ap (order_by (λ (a b : NodeEndpoint). ltb b.last_seen a.last_seen)) (
        select-delete_keeps _ (λ (r : NodeEndpoint). ltb r.last_seen (now - 3600)) db.node_endpoints
          (λ a k. ground arith)),
    ap url_of (
        find-delete_keeps _ (λ (r : DevicePresence). ltb r.last_seen (now - 3600))
          db.device_presence (λ a k. ground arith)),
  )
