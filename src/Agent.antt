-- ===== src/Agent.antt =====
-- agent/agent.py: the program on a device that carries out the hub's requests.
pub mod Session
pub mod Requests
pub mod Upload
pub mod Bridges
pub mod Files
pub mod Nodes
pub mod Pairing
pub mod Direct
