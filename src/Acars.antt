-- ===== src/Acars.antt =====
-- The positions and altitudes that acars_position.c reads from ACARS texts.
pub mod Label
pub mod Altitude
pub mod Position
pub mod Waypoint
mod Tests
