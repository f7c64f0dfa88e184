-- ===== src/Model.antt =====
-- ui/web/js/railviz/model.js: the trains, polylines and stations that the server sends.
pub mod Geometry
pub mod Train
pub mod Position
pub mod Preprocess
pub mod Walks
