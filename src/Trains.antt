-- ===== src/Trains.antt =====
-- ui/web/js/railviz/trains.js, less what it only passes to WebGL.
pub mod Colors
pub mod Buffers
pub mod Positions
pub mod State
