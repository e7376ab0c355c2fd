-- ===== src/Agent/Bridges.antt =====
-- agent/camera_bridge.py, agent/screen_bridge.py, agent/input_bridge.py: the sockets of the driver
-- on the same phone, on which both sides send frames behind their lengths.
pub mod Socket
pub mod Frames
pub mod Commands
pub mod Framing
