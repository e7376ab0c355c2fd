-- ===== src/Db/Purge.antt =====
-- hub/db.py, `purge_expired`: the housekeeping that every hub runs from time to time.
pub mod Visibility
use vortex_portal.Base.{ℕ, ◌-◌, ltb}
use vortex_portal.Base.Table.{delete}
use vortex_portal.Db.Schema.{Db, Session, PairingCode, DeviceLock, NodeEndpoint, DevicePresence}

-- `now - 3600` is at least 0 in an epoch time; a smaller clock deletes nothing here either.
unfoldable pub purge_expired : Db → ℕ → Db
purge_expired db now = record db {
  sessions = delete (λ (r : Session). ltb r.expires_at now) db.sessions;
  pairing_codes = delete (λ (r : PairingCode). ltb r.expires_at now) db.pairing_codes;
  device_locks = delete (λ (r : DeviceLock). ltb r.expires_at now) db.device_locks;
  node_endpoints = delete (λ (r : NodeEndpoint). ltb r.last_seen (now - 3600)) db.node_endpoints;
  device_presence =
      delete (λ (r : DevicePresence). ltb r.last_seen (now - 3600)) db.device_presence;
}
