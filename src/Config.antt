-- ===== src/Config.antt =====
-- hub/config.py: the settings store and the loader of .env files.
pub mod Env
pub mod Store
