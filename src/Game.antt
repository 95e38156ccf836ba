-- ===== src/Game.antt =====
-- src/game: sessions, rooms, matching and battles.
pub mod Room
pub mod Outcome
pub mod Sessions
pub mod Combat
pub mod Aoi
pub mod Tick
pub mod Broadcaster
pub mod Worker
pub mod Battles
pub mod Server
pub mod Router
pub mod Matching
