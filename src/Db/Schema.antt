-- ===== src/Db/Schema.antt =====
-- The schema of hub/db.py, `_SCHEMA`: a record for each table's row, and the database as the
-- tables, rows in the order of insertion. A nullable column is an `Option`, a flag 0/1 a `Bool`.
-- The counters are the next values of the AUTOINCREMENT keys.
use vortex_portal.Base.{ℕ, Bool, true, not, ◌||◌, Option, List, []}
use vortex_portal.Base.{◌≡◌, ◌⊎◌, refl, inl, inr, ◌==◌, is_some}
use vortex_portal.Base.Text.{Text, text_eq}
use vortex_portal.Base.Table.{find}

pub record User : Type 0 where
  pub id : ℕ
  pub username : Text
  pub password_hash : Text
  pub is_admin : Bool
  pub created_at : ℕ

pub record Invite : Type 0 where
  pub code : Text
  pub created_by : ℕ
  pub created_at : ℕ
  pub used_by : Option ℕ
  pub used_at : Option ℕ

pub record Device : Type 0 where
  pub id : Text
  pub owner_id : ℕ
  pub name : Text
  pub token_hash : Text
  pub paired_at : ℕ
  pub last_seen : Option ℕ
  pub characteristics : Option Text

pub record PairingCode : Type 0 where
  pub code : Text
  pub user_id : ℕ
  pub device_name : Option Text
  pub expires_at : ℕ
  pub used : Bool

pub record Session : Type 0 where
  pub token_hash : Text
  pub user_id : ℕ
  pub created_at : ℕ
  pub expires_at : ℕ

pub record DeviceLock : Type 0 where
  pub device_id : Text
  pub holder : Text
  pub label : Text
  pub acquired_at : ℕ
  pub expires_at : ℕ

pub record TheftState : Type 0 where
  pub device_id : Text
  pub armed : Bool
  pub armed_at : Option ℕ
  pub armed_by : Option ℕ
  pub interval_s : ℕ
  pub opts : Text
  pub last_run : Option ℕ

pub record TheftMedia : Type 0 where
  pub id : ℕ
  pub device_id : Text
  pub owner_id : ℕ
  pub kind : Text
  pub created_at : ℕ
  pub path : Option Text
  pub mime : Option Text
  pub size : Option ℕ
  pub meta : Option Text
  pub trigger : Text

pub record AccountToken : Type 0 where
  pub id : ℕ
  pub user_id : ℕ
  pub token_hash : Text
  pub label : Option Text
  pub created_at : ℕ
  pub last_used : Option ℕ

pub record NodeEndpoint : Type 0 where
  pub url : Text
  pub label : Option Text
  pub last_seen : ℕ

pub record DevicePresence : Type 0 where
  pub device_id : Text
  pub node_url : Text
  pub last_seen : ℕ

pub record AuditEntry : Type 0 where
  pub id : ℕ
  pub ts : ℕ
  pub owner_id : Option ℕ
  pub actor_id : Option ℕ
  pub actor_name : Option Text
  pub device_id : Option Text
  pub action : Text
  pub detail : Text
  pub node_url : Option Text
  pub ok : Bool

pub record Db : Type 0 where
  -- PRAGMA foreign_keys of the connection: ON for the SQLite backend, never set by the two others
  pub foreign_keys : Bool
  pub users : List User
  pub invites : List Invite
  pub devices : List Device
  pub pairing_codes : List PairingCode
  pub sessions : List Session
  pub device_locks : List DeviceLock
  pub theft_state : List TheftState
  pub theft_media : List TheftMedia
  pub account_tokens : List AccountToken
  pub node_endpoints : List NodeEndpoint
  pub device_presence : List DevicePresence
  pub audit_log : List AuditEntry
  pub next_user : ℕ
  pub next_media : ℕ
  pub next_token : ℕ
  pub next_audit : ℕ

-- What `sqlite3.IntegrityError` interrupts: a statement that breaks a UNIQUE or a REFERENCES
-- constraint raises, and changes nothing.
pub data Result {ℓ} (A : Type ℓ) : Type ℓ where
  ok : A → Result A
  integrity_error : Result A

infixl 5 ◌>>=◌
abbrev pub ◌>>=◌ {ℓ κ} : {A : Type ℓ} {B : Type κ} → Result A → (A → Result B) → Result B
ok a >>= f = f a
integrity_error >>= f = integrity_error

pub Result-cases {ℓ} : {A : Type ℓ} (r : Result A) → ((a : A) × (r ≡ ok a)) ⊎ (r ≡ integrity_error)
Result-cases (ok a) = inl (a, refl)
Result-cases integrity_error = inr refl

-- REFERENCES users(id), REFERENCES devices(id), where foreign keys are enforced
unfoldable pub user_exists : Db → ℕ → Bool
user_exists db user_id =
    not db.foreign_keys || is_some (find (λ (u : User). u.id == user_id) db.users)

unfoldable pub device_exists : Db → Text → Bool
device_exists db device_id =
    not db.foreign_keys || is_some (find (λ (d : Device). text_eq d.id device_id) db.devices)

-- `CREATE TABLE IF NOT EXISTS` on a new file.
abbrev pub empty_db : Db
empty_db = record {
  foreign_keys = true;
  users = [];
  invites = [];
  devices = [];
  pairing_codes = [];
  sessions = [];
  device_locks = [];
  theft_state = [];
  theft_media = [];
  account_tokens = [];
  node_endpoints = [];
  device_presence = [];
  audit_log = [];
  next_user = 1;
  next_media = 1;
  next_token = 1;
  next_audit = 1;
}
