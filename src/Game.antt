-- ===== src/Game.antt =====
-- game: the tiles, the entities and the world.
pub mod WorldTile
pub mod Entity
pub mod World
pub mod Skills
pub mod Appearance
pub mod Dynamic
pub mod Player
