-- ===== src/Db.antt =====
-- hub/db.py: the tables of the hub's database, and the functions that query and change them.
pub mod Schema
pub mod Purge
pub mod Users
pub mod Passwords
pub mod Sessions
pub mod Pairing
pub mod Devices
pub mod Tokens
pub mod Nodes
pub mod Audit
pub mod Theft
pub mod Locks
