-- ===== src/Tests/ManagerRuns.antt =====
-- Runs of ui/web/js/railviz/connectionmgr.js and ui/web/js/railviz/path_connections.js.
use mathlib.Core.List.{Perm}
use mathlib.Core.Option
use motis.Prelude.{
  ℕ, Holds, ◌≡◌, ◌++◌, length, refl, Bool, true, false, List, [], ◌∷◌, map, Option, none, some, All,
  str_eq, arith, inl, inr, ◌==◌,
}
use motis.Prelude.Int.{ℤ, pos, negsuc}
use motis.External.{External}
use motis.ConnectionManager.Ids.{reduce_ids}
use motis.ConnectionManager.Ids.Best.{IsOneOf, IsBest, reduce_ids-IsBest}
use motis.ConnectionManager.Walks.{
  Walk, WalkEntry, Route, walk_id, same_key, add_walk, new_entry, add_connection, add_walks,
  set_min_cid,
}
use motis.ConnectionManager.Walks.Grouping.{
  IsNumbered, AreDistinct, IsEntryFor, joined, unless_there, has_key, add_walk-groups,
}
use motis.ConnectionManager.State.{
  Connection, Manager, TripData, received, linked, end_call, send_request,
}
use motis.ConnectionManager.Requests.{
  show_connections, data_is_complete, set_connections, request_trips, unique_trips, find_index,
  unique_from, request_walks, all_trips, group_walks, request_segments, request_walk_segment,
  ask_osrm, ask_ppr, send_walk,
}
use motis.ConnectionManager.Events.{
  Answer, Event, connections_set, answered, failed, default_duration, best_route, run, step, report,
  failure_of, walk_failed, change_walk,
}
use motis.ConnectionManager.Requests.Unique.{FirstOnes, unique_trips-FirstOnes}
use motis.Model.Train.{TripId}
use motis.ConnectionManager.Events.Shown.{IsComplete}
use motis.ConnectionManager.Events.Shown.Run.{run-IsComplete}
use motis.ConnectionManager.Events.Awaited.Run.{run-Waits, run-settles}
use motis.ConnectionManager.Events.Awaited.Ending.{Waits}
use motis.ConnectionManager.Events.Routes.{IsNearer, best_route-IsNearer}
use motis.Connections.Features.{
  Feature, PathConnections, features_of, trip_data_features, trip_features, walk_features,
}
use motis.Connections.Features.Showing.{
  Operation, map_ready, data_set, enabled_set, IsShown, perform_all, perform_all-IsShown,
}
use motis.Connections.Highlight.{get_min_cid, min_cids}
use motis.Connections.Highlight.Best.{users, min_cids-reduce_ids}
use motis.Connections.Picking.Drawn.{IsPicked, features_of-IsPicked}
use motis.Tests.Data.{from_lng_lat, decode, line_a, train, station_a, station_b, trip_id, response}

abbrev ext : External
ext = record {
  decode = decode;
  from_lng_lat = from_lng_lat;
  deep_equal = λ a b. str_eq a.line_id b.line_id;
}

abbrev walk : Walk
walk = record {
  id = none;
  departure_station = station_a;
  arrival_station = station_b;
  mumo_type = "foot";
  duration = 12;
  accessibility = 0;
  polyline = none;
}

abbrev bike : Walk
bike = record walk { mumo_type = "bike" }

abbrev connection : Connection
connection = record {
  id = pos 3;
  trains =
      record {
        trip = trip_id;
        sections = record { departure_station_id = "A"; arrival_station_id = "B" } ∷ [];
      }
      ∷ [];
  walks = walk ∷ bike ∷ [];
  resolved = train ∷ [];
}

abbrev manager : Manager
manager = record {
  connections = [];
  trip_data = none;
  walk_data = [];
  last_trips_request = none;
  trips_complete = false;
  osrm_cache = [];
  ppr_cache = [];
  generation = 0;
  last_call_id = 0;
  pending = [];
  loading = record { loading_count = pos 0; spinner = some false };
  shown = [];
}

abbrev route : Option ℕ → Route
route duration = record { duration = duration; accessibility = none; path = pos 1 ∷ pos 2 ∷ [] }

abbrev answer : Answer
answer = record {
  trips = response;
  polyline = pos 1 ∷ pos 2 ∷ pos 3 ∷ pos 4 ∷ [];
  routes = (route (some 30) ∷ route (some 11) ∷ []) ∷ [];
}

-- Connections are set, the answers come in another order than the requests, and one fails.
abbrev events : List Event
events =
    connections_set "" (connection ∷ []) ∷ answered 3 answer ∷ failed 2 ∷ answered 1 answer ∷ []

run-IsComplete_example : All IsComplete (run ext events manager).shown
run-IsComplete_example = run-IsComplete ext events manager (record { numbered = tt; complete = tt })

abbrev same_time : TripId → TripId → Bool
same_time a b = a.time == b.time

abbrev later : TripId
later = record trip_id { time = 5 }

abbrev trips : List TripId
trips = trip_id ∷ later ∷ trip_id ∷ []

unique_trips_test : unique_trips same_time trips ≡ trip_id ∷ later ∷ []
unfolding unique_trips find_index unique_from
unique_trips_test = refl

same_time-reflexive : (a : TripId) → same_time a a ≡ true
same_time-reflexive a = ground arith

same_time-transitive :
    (a b c : TripId) → same_time a b ≡ true → same_time b c ≡ true → same_time a c ≡ true
same_time-transitive a b c h k = ground arith

unique_trips-FirstOnes_example : FirstOnes same_time [] trips (unique_trips same_time trips)
unique_trips-FirstOnes_example =
    unique_trips-FirstOnes same_time same_time-reflexive same_time-transitive trips

run-Waits_example : Waits (run ext events manager)
run-Waits_example = run-Waits ext events manager (record { numbered = tt; complete = tt }) tt

-- Connections are set, and all three calls fail.
abbrev failures : List Event
failures = connections_set "" (connection ∷ []) ∷ failed 3 ∷ failed 1 ∷ failed 2 ∷ []

failures-pending : (run ext failures manager).pending ≡ []
unfolding run step report failure_of walk_failed end_call change_walk show_connections
    data_is_complete set_connections request_trips request_walks all_trips group_walks
    request_segments request_walk_segment ask_osrm ask_ppr send_walk send_request add_walks add_walk
    add_connection new_entry set_min_cid same_key walk_id
failures-pending = refl

run-settles_example :
    data_is_complete (run ext failures manager) ≡ (run ext failures manager).trips_complete
run-settles_example =
    run-settles ext failures manager (record { numbered = tt; complete = tt }) tt failures-pending

abbrev entries : List WalkEntry
entries = (add_walk 0 (pos 3) walk []).entries

add_walk-groups_example :
    let added = add_walk 0 (pos 4) bike entries in
    (added.entries
      ≡ map (joined (pos 4) bike) entries
        ++ unless_there (has_key (walk_id bike) entries) (length entries) (pos 4) bike)
    × IsNumbered 0 added.entries
    × AreDistinct added.entries
    × IsEntryFor 0 (pos 4) (walk_id bike) added.entries added.index
unfolding add_walk add_connection new_entry
add_walk-groups_example = add_walk-groups (pos 4) bike entries (refl, tt) (tt, tt)

best_route-IsNearer_example :
    (best : Route) × (rest : List Route) × (best_route walk
        ((route (some 30) ∷ route (some 11) ∷ []) ∷ [])
      ≡ some best)
    × Perm (best ∷ rest) (map default_duration (route (some 30) ∷ route (some 11) ∷ []))
    × All (IsNearer walk best) (route (some 30) ∷ route (some 11) ∷ [])
best_route-IsNearer_example = best_route-IsNearer walk (route (some 30)) (route (some 11) ∷ []) []

reduce_ids-IsBest_example :
    (best : ℤ) × (reduce_ids (negsuc 0 ∷ pos 4 ∷ pos 2 ∷ []) ≡ some best)
    × IsBest (negsuc 0 ∷ pos 4 ∷ pos 2 ∷ []) best
reduce_ids-IsBest_example = reduce_ids-IsBest (negsuc 0) (pos 4 ∷ pos 2 ∷ [])

swapped : (a b id : ℤ) → IsOneOf id (a ∷ b ∷ []) → IsOneOf id (b ∷ a ∷ [])
swapped a b id (inl e) = inr (inl e)
swapped a b id (inr (inl e)) = inl e
swapped a b id (inr (inr e)) = absurd e

abbrev view : PathConnections
view = record {
  map = none;
  features = none;
  enabled = true;
  connections = none;
  trip_data = none;
  walk_data = none;
}

-- The data come before the map.
abbrev operations : List Operation
operations =
    data_set (connection ∷ []) (some (received response)) (some [])
    ∷ map_ready
    ∷ enabled_set false
    ∷ []

perform_all-IsShown_example : Holds (IsShown true (some []) false) (perform_all operations view)
unfolding features_of trip_data_features walk_features
perform_all-IsShown_example =
    perform_all-IsShown operations false none true view
      (record { keeps = refl; is_enabled = refl; shows = tt })

min_cids-reduce_ids_example :
    get_min_cid (some 1) (min_cids (some (connection ∷ [])) (pos 3 ∷ []) [])
    ≡ reduce_ids (users (some 1) (some (connection ∷ [])) (pos 3 ∷ []))
min_cids-reduce_ids_example = min_cids-reduce_ids (some (connection ∷ [])) (pos 3 ∷ []) (some 1)

abbrev drawn : List WalkEntry
drawn = record (new_entry 0 walk) { polyline = some (pos 1 ∷ pos 2 ∷ []) } ∷ []

abbrev linked_trips : TripData
linked_trips = linked (record {
  stations = [];
  trains = [];
  polylines =
      record { polyline = none; trains = none; min_cid = none }
      ∷ record {
        polyline = some line_a;
        trains = some (record { train = train; connection_ids = pos 3 ∷ [] } ∷ []);
        min_cid = some (pos 3);
      }
      ∷ [];
})

abbrev drawn_features : List Feature
drawn_features = Option.get_or (features_of (some linked_trips) (some drawn)) []

features_of-IsPicked_example : All (IsPicked (some linked_trips) drawn) drawn_features
unfolding features_of trip_data_features trip_features new_entry Option.bind
features_of-IsPicked_example =
    features_of-IsPicked (some linked_trips) drawn drawn_features (refl, tt) refl
