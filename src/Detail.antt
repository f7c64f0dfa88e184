-- ===== src/Detail.antt =====
-- ui/web/js/railviz/path_detail.js: a journey or a trip on the map.
pub mod Walks
pub mod Styles
pub mod Data
