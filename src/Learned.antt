-- ===== src/Learned.antt =====
-- The runtime waypoint cache of learned_waypoints.c.
pub mod Cache
pub mod Coord
pub mod Parse
mod Tests
