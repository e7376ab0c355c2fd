-- ===== src/Router.antt =====
-- hub/ws_router.py: the connections of the agents, and the registry of the connected devices.
pub mod Connection
pub mod Registry
