-- ===== src/Tests.antt =====
-- Examples: the theorems at concrete inputs.
pub mod Wire
pub mod Connections
pub mod Timers
pub mod Rooms
pub mod Battles
pub mod Logins
pub mod Matches
pub mod Loops
pub mod Stores
pub mod Arenas
pub mod Ranks
pub mod Servers
pub mod Queries
