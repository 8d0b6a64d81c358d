-- ===== src/Manager.antt =====
-- openrs/{include/openrs,src}/manager: what is sent to a player's client.
pub mod Config
pub mod Interface
pub mod Appearance
pub mod World
pub mod Heard
