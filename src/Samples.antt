-- ===== src/Samples.antt =====
-- Tests: the theorems at inputs that meet their hypotheses. Here the sample database that the
-- children share: one user, one device, a parameter for the hash.
mod Accounts
mod Leases
mod Captures
mod Logins
mod Sockets
mod Settings
mod Uploads
mod Handlers
mod Streams
mod Nodes
mod Devices
mod Pairing
mod Direct
use vortex_portal.Base.{true, none, [], ◌∷◌, ◌++◌}
use vortex_portal.Base.Text.{Text, codes}
use vortex_portal.Db.Schema.{Db, User, Device, Invite, empty_db}

abbrev pub plain_hash : Text → Text
plain_hash t = codes "h" ++ t

abbrev pub ann : User
ann = record {
  id = 1;
  username = codes "ann";
  password_hash = codes "x";
  is_admin = true;
  created_at = 10;
}

abbrev pub phone : Device
phone = record {
  id = codes "d1";
  owner_id = 1;
  name = codes "phone";
  token_hash = codes "htok";
  paired_at = 20;
  last_seen = none;
  characteristics = none;
}

abbrev pub open_invite : Invite
open_invite = record {
  code = codes "inv";
  created_by = 1;
  created_at = 30;
  used_by = none;
  used_at = none;
}

abbrev pub home : Db
home = record empty_db {
  users = ann ∷ [];
  devices = phone ∷ [];
  invites = open_invite ∷ [];
  next_user = 2;
}
