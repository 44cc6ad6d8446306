-- ===== src/SoLong.antt =====
-- 42_so_long: the check of a map and the moves in it.
pub mod Map
pub mod Moves
mod Tests
