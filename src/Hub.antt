-- ===== src/Hub.antt =====
-- hub/app.py: the handlers of the hub, over the database, the limiter and the registry.
pub mod Accounts
pub mod Enrolment
pub mod Agents
pub mod Files
pub mod Devices
pub mod DeviceApi
pub mod Direct
pub mod Theft
pub mod Capture
pub mod TheftLoop
pub mod Relay
