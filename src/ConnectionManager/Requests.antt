-- ===== src/ConnectionManager/Requests.antt =====
-- `requestTrips`, `requestWalks`, `requestWalkSegment`, `dataIsComplete` and `showConnections` of
-- ui/web/js/railviz/connectionmgr.js.
pub mod Unique
use motis.Prelude.{
  ℕ, ◌+◌, Bool, true, false, ◌&&◌, ◌||◌, not, List, [], ◌∷◌, ◌++◌, map, Option, none, some, str_eq,
  ◌==◌, if◌then◌else◌, all,
}
use motis.Model.Train.{TripId}
use motis.External.{External}
use motis.Api.{Request, SearchOptions, make_trips_request, make_ppr_request, make_osrm_request}
use motis.ConnectionManager.Walks.{
  Walk, WalkKey, walk_id, same_key, WalkEntry, Router, osrm, ppr, Route, Coordinates, add_walks,
  set_min_cid,
}
use motis.ConnectionManager.State.{
  Connection, ConnectionTrain, Manager, Shown, for_trips, for_walk, send_request,
}

-- `!w.polyline && !w.error`
abbrev pub is_open : WalkEntry → Bool
is_open w = elim w.polyline [ none ↦ not w.error | some p ↦ false ]

unfoldable pub data_is_complete : Manager → Bool
data_is_complete m = m.trips_complete && all (λ w. not (is_open w)) m.walk_data

abbrev pub shown_now : Manager → Shown
shown_now m = record {
  connections = m.connections;
  trip_data = m.trip_data;
  walk_data = m.walk_data;
}

unfoldable pub show_connections : Manager → Manager
unfolding data_is_complete
show_connections m =
    if data_is_complete m then record m { shown = m.shown ++ shown_now m ∷ [] } else m

-- `a.findIndex((e) => deepEqual(v, e))`, counted from `i`.
unfoldable pub find_index : (TripId → Bool) → ℕ → List TripId → Option ℕ
find_index p i [] = none
find_index p i (e ∷ es) = if p e then some i else find_index p (i + 1) es

abbrev pub is_index : ℕ → Option ℕ → Bool
is_index i none = false
is_index i (some j) = i == j

-- The `filter` that keeps each trip where it stands first.
unfoldable pub unique_from : (TripId → TripId → Bool) → List TripId → ℕ → List TripId → List TripId
unique_from deep_equal all i [] = []
unique_from deep_equal all i (v ∷ vs) =
    let rest = unique_from deep_equal all (i + 1) vs in
    if is_index i (find_index (deep_equal v) 0 all) then v ∷ rest else rest

unfoldable pub unique_trips : (TripId → TripId → Bool) → List TripId → List TripId
unfolding find_index unique_from
unique_trips deep_equal trips = unique_from deep_equal trips 0 trips

abbrev trips_of : List ConnectionTrain → List TripId
trips_of ts = map (λ t. t.trip) ts

unfoldable pub all_trips : List Connection → List TripId
all_trips [] = []
all_trips (c ∷ cs) = trips_of c.trains ++ all_trips cs

unfoldable pub request_trips : External → Manager → Manager
request_trips ext m = elim (all_trips m.connections) [
  | [] ↦ show_connections (record m { trips_complete = true })
  | trip ∷ trips ↦
      let m' =
        send_request for_trips (make_trips_request (unique_trips ext.deep_equal (trip ∷ trips)))
          m in
      record m' { last_trips_request = some m'.last_call_id }
]

abbrev pub lookup_key {ℓ} : {A : Type ℓ} → WalkKey → List (WalkKey × A) → Option A
lookup_key k [] = none
lookup_key k ((j, a) ∷ cache) = if same_key j k then some a else lookup_key k cache

-- `cache.set(k, a)`
abbrev pub set_key {ℓ} : {A : Type ℓ} → WalkKey → A → List (WalkKey × A) → List (WalkKey × A)
set_key k a [] = (k, a) ∷ []
set_key k a ((j, b) ∷ cache) = if same_key j k then (k, a) ∷ cache else (j, b) ∷ set_key k a cache

abbrev pub uses_osrm : Walk → Bool
uses_osrm walk = str_eq walk.mumo_type "bike" || str_eq walk.mumo_type "car"

pub record Requested : Type 0 where
  pub manager : Manager
  pub entry : WalkEntry

unfoldable pub send_walk : Router → Request → WalkEntry → Manager → Manager
send_walk router request w m = send_request (for_walk m.generation w.id w.walk router) request m

-- The two halves of `requestWalkSegment`, after the look into the cache.
unfoldable pub ask_osrm : Option Coordinates → WalkEntry → Manager → Requested
unfolding send_walk
ask_osrm none w m = record {
  manager =
      send_walk osrm
        (make_osrm_request w.walk.mumo_type w.walk.departure_station w.walk.arrival_station) w m;
  entry = record w { router_type = some osrm };
}
ask_osrm (some polyline) w m = record {
  manager = m;
  entry = record w {
    router_type = some osrm;
    polyline = some polyline;
    osrm_route = some polyline;
  };
}

unfoldable pub ask_ppr : SearchOptions → Option Route → WalkEntry → Manager → Requested
unfolding send_walk
ask_ppr options none w m = record {
  manager =
      send_walk ppr (make_ppr_request w.walk.departure_station w.walk.arrival_station options) w m;
  entry = record w { router_type = some ppr };
}
ask_ppr options (some route) w m = record {
  manager = m;
  entry = record w { router_type = some ppr; polyline = some route.path; ppr_route = some route };
}

unfoldable pub request_walk_segment : SearchOptions → WalkEntry → Manager → Requested
request_walk_segment options w m =
    if uses_osrm w.walk
    then ask_osrm (lookup_key (walk_id w.walk) m.osrm_cache) w m
    else ask_ppr options (lookup_key (walk_id w.walk) m.ppr_cache) w m

abbrev pub has_polyline : WalkEntry → Bool
has_polyline w = elim w.polyline [ none ↦ false | some p ↦ true ]

pub record AllRequested : Type 0 where
  pub manager : Manager
  pub entries : List WalkEntry

-- The second loop of `requestWalks`.
unfoldable pub request_segments : SearchOptions → List WalkEntry → Manager → AllRequested
request_segments options [] m = record { manager = m; entries = [] }
request_segments options (w ∷ ws) m =
    let w' = set_min_cid w in
    let first =
      if has_polyline w'
      then record { manager = m; entry = w' }
      else request_walk_segment options w' m in
    let rest = request_segments options ws first.manager in
    record { manager = rest.manager; entries = first.entry ∷ rest.entries }

pub record GroupedWalks : Type 0 where
  pub entries : List WalkEntry
  pub connections : List Connection

-- The first loop of `requestWalks`: every walk of every connection gets the id of its entry.
unfoldable pub group_walks : List Connection → List WalkEntry → GroupedWalks
group_walks [] entries = record { entries = entries; connections = [] }
group_walks (c ∷ cs) entries =
    let added = add_walks c.id c.walks entries in
    let rest = group_walks cs added.entries in
    record {
      entries = rest.entries;
      connections = record c { walks = added.walks } ∷ rest.connections;
    }

unfoldable pub request_walks : SearchOptions → Manager → Manager
request_walks options m =
    let grouped = group_walks m.connections [] in
    let asked =
      request_segments options grouped.entries (record m { connections = grouped.connections }) in
    show_connections (record asked.manager { walk_data = asked.entries })

unfoldable pub set_connections : External → SearchOptions → List Connection → Manager → Manager
set_connections ext options connections m = request_walks options (
    request_trips ext (record m {
      connections = connections;
      trip_data = none;
      walk_data = [];
      trips_complete = false;
      generation = m.generation + 1;
    }))
