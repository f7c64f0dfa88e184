-- ===== src/Main.antt =====
-- ui/web/js/railviz/main.js: which of the full data and the detail data the map shows.
pub mod State
pub mod Views
pub mod Requests
pub mod Events
