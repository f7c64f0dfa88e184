-- ===== src/Connections.antt =====
-- ui/web/js/railviz/path_connections.js: the features of the connections on the map, the highlighted
-- ones, and picking. The map is its source, its layer's visibility and its feature states.
pub mod Colors
pub mod Features
pub mod Highlight
pub mod Picking
