-- ===== src/ConnectionManager.antt =====
-- ui/web/js/railviz/connectionmgr.js: the connections of a search result, with their trips and walks.
pub mod Ids
pub mod Walks
pub mod State
pub mod Requests
pub mod Trips
pub mod Events
