-- ===== src/Db/Audit.antt =====
-- hub/db.py, "Audit log". `limit` is a Python int, passed as its value when it is not negative;
-- a negative one is clamped to 1 like 0.
use vortex_portal.Base.{
  ℕ, suc, max, min, Bool, false, ◌&&◌, ◌||◌, Option, none, some, List, [], ◌∷◌, ◌++◌, ltb, ◌==◌,
  take,
}
use vortex_portal.Base.Text.{Text, or_empty}
use vortex_portal.Base.Table.{select}
use vortex_portal.Base.Sort.{order_by}
use vortex_portal.Db.Schema.{Db, AuditEntry}

-- The arguments of `record_audit`.
pub record Event : Type 0 where
  pub action : Text
  pub owner_id : Option ℕ
  pub actor_id : Option ℕ
  pub actor_name : Option Text
  pub device_id : Option Text
  pub detail : Option Text
  pub node_url : Option Text
  pub ok : Bool

unfoldable pub record_audit : Db → Event → ℕ → Db
record_audit db e now = record db {
  audit_log =
      db.audit_log
      ++ (record {
        id = db.next_audit;
        ts = now;
        owner_id = e.owner_id;
        actor_id = e.actor_id;
        actor_name = e.actor_name;
        device_id = e.device_id;
        action = e.action;
        detail = take 300 (or_empty e.detail);
        node_url = e.node_url;
        ok = e.ok;
      })
        ∷ [];
  next_audit = suc db.next_audit;
}

-- ORDER BY ts DESC, id DESC
abbrev pub later : AuditEntry → AuditEntry → Bool
later a b = ltb b.ts a.ts || (a.ts == b.ts && ltb b.id a.id)

-- WHERE owner_id = ?, which a NULL never fits
abbrev pub owned_by : ℕ → AuditEntry → Bool
owned_by owner_id a = elim a.owner_id [ none ↦ false | some o ↦ o == owner_id ]

unfoldable pub list_audit : Db → ℕ → ℕ → List AuditEntry
list_audit db owner_id limit =
    take (max 1 (min limit 1000)) (order_by later (select (owned_by owner_id) db.audit_log))
