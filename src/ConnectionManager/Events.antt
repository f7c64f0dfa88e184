-- ===== src/ConnectionManager/Events.antt =====
-- The callbacks of ui/web/js/railviz/connectionmgr.js, and the manager as a state machine: the page
-- sets connections, and the browser reports the calls that are under way in any order.
pub mod Loading
pub mod Shown
pub mod Awaited
pub mod Routes
use motis.Prelude.{
  ℕ, zero, suc, ◌+◌, ◌-◌, Bool, true, false, ◌&&◌, not, List, [], ◌∷◌, map, Option, none, some,
  ◌==◌, leb, ltb, if◌then◌else◌,
}
use mathlib.Core.Option
use motis.Prelude.Int.{ℤ}
use motis.Prelude.Sorting.{sort_by}
use motis.Model.Preprocess.{Response, preprocess}
use motis.External.{External}
use motis.Api.{SearchOptions}
use motis.ConnectionManager.Walks.{Walk, WalkEntry, Router, osrm, ppr, Route, Coordinates, walk_id}
use motis.ConnectionManager.State.{
  Connection, Manager, received, Call, Purpose, for_trips, for_walk, end_call, find_call,
}
use motis.ConnectionManager.Requests.{show_connections, set_connections, set_key}
use motis.ConnectionManager.Trips.{link_content, update_at}

-- The content of an answer: the handler reads the part that it expects.
pub record Answer : Type 0 where
  pub trips : Response
  pub polyline : Coordinates
  pub routes : List (List Route)

abbrev pub is_last : ℕ → Option ℕ → Bool
is_last id none = false
is_last id (some last) = id == last

unfoldable pub trip_data_received : External → Response → ℕ → Manager → Manager
trip_data_received ext response call_id m =
    let m' = record (end_call call_id m) { trip_data = some (received response) } in
    if not (is_last call_id m.last_trips_request)
    then m'
    else elim (preprocess ext.decode ext.from_lng_lat response) [
      | none ↦ m'
      | some content ↦ show_connections (link_content ext.deep_equal content m')
    ]

-- `Math.abs(a - b)`
abbrev pub distance : ℕ → ℕ → ℕ
distance a b = a - b + (b - a)

-- The comparison of two accessibilities, where a missing one makes the comparator NaN, which counts
-- as equal.
abbrev accessibility_le : ℕ → Option ℕ → Option ℕ → Bool
accessibility_le wanted none b = true
accessibility_le wanted (some a) none = true
accessibility_le wanted (some a) (some b) = leb (distance a wanted) (distance b wanted)

abbrev pub duration_of : Route → ℕ
duration_of r = Option.get_or r.duration 0

unfoldable pub route_le : Walk → Route → Route → Bool
route_le walk a b =
    let da = distance (duration_of a) walk.duration in
    let db = distance (duration_of b) walk.duration in
    if da == db
    then accessibility_le walk.accessibility a.accessibility b.accessibility
    else ltb da db

unfoldable pub default_duration : Route → Route
default_duration r = record r { duration = some (duration_of r) }

unfoldable pub first? : List Route → Option Route
first? [] = none
first? (r ∷ rs) = some r

-- `none` if the service found no route; else the first after the sort.
unfoldable pub best_route : Walk → List (List Route) → Option Route
unfolding default_duration first?
best_route walk [] = none
best_route walk (routes ∷ others) = first? (sort_by (route_le walk) (map default_duration routes))

straight_line : Walk → Coordinates
straight_line walk =
    walk.departure_station.position.lat ∷ walk.departure_station.position.lng
    ∷ walk.arrival_station.position.lat ∷ walk.arrival_station.position.lng ∷ []

-- A change of a walk's object; one that is no longer in `walkData` is not seen again.
unfoldable pub change_walk : ℕ → ℕ → (WalkEntry → WalkEntry) → Manager → Manager
change_walk generation id f m =
    if generation == m.generation then record m { walk_data = update_at id f m.walk_data } else m

unfoldable pub handle_ppr_response : ℕ → ℕ → Walk → List (List Route) → Manager → Manager
unfolding straight_line
handle_ppr_response generation id walk routes m = elim (best_route walk routes) [
  | none ↦ change_walk generation id (λ w. record w { polyline = some (straight_line walk) }) m
  | some route ↦
      let m' =
        change_walk generation id
          (λ w. record w { polyline = some route.path; ppr_route = some route }) m in
      record m' { ppr_cache = set_key (walk_id walk) route m'.ppr_cache }
]

unfoldable pub handle_osrm_response : ℕ → ℕ → Walk → Coordinates → Manager → Manager
handle_osrm_response generation id walk polyline m =
    let m' =
      change_walk generation id
        (λ w. record w { polyline = some polyline; osrm_route = some polyline }) m in
    record m' { osrm_cache = set_key (walk_id walk) polyline m'.osrm_cache }

-- The two cases of the switch over `w.routerType`.
handle_walk : ℕ → ℕ → Walk → Router → Answer → Manager → Manager
handle_walk generation id walk osrm answer m =
    handle_osrm_response generation id walk answer.polyline m
handle_walk generation id walk ppr answer m = handle_ppr_response generation id walk answer.routes m

unfoldable pub walk_data_received : ℕ → ℕ → Walk → Router → Answer → ℕ → Manager → Manager
unfolding handle_walk
walk_data_received generation id walk router answer call_id m =
    show_connections (handle_walk generation id walk router answer (end_call call_id m))

-- The failure callback of a walk's call, with the `setLoading(-1)` of `handleApiError`.
unfoldable pub walk_failed : ℕ → ℕ → ℕ → Manager → Manager
walk_failed generation id call_id m =
    end_call call_id
      (show_connections (change_walk generation id (λ w. record w { error = true }) m))

unfoldable pub reset_ppr_cache : Manager → Manager
reset_ppr_cache m = record m { ppr_cache = [] }

unfoldable pub answer_to : External → Answer → ℕ → Purpose → Manager → Manager
answer_to ext answer call_id for_trips m = trip_data_received ext answer.trips call_id m
answer_to ext answer call_id (for_walk generation id walk router) m =
    walk_data_received generation id walk router answer call_id m

unfoldable pub failure_of : ℕ → Purpose → Manager → Manager
failure_of call_id for_trips m = end_call call_id m
failure_of call_id (for_walk generation id walk router) m = walk_failed generation id call_id m

pub data Event : Type 0 where
  connections_set : SearchOptions → List Connection → Event
  answered : ℕ → Answer → Event
  failed : ℕ → Event
  ppr_cache_reset : Event

-- The browser reports on a call that is under way, and on no other.
unfoldable pub report : (Purpose → Manager → Manager) → Option Call → Manager → Manager
report handler none m = m
report handler (some call) m = handler call.purpose m

unfoldable pub step : External → Event → Manager → Manager
step ext (connections_set options connections) m = set_connections ext options connections m
step ext (answered id answer) m = report (answer_to ext answer id) (find_call id m.pending) m
step ext (failed id) m = report (failure_of id) (find_call id m.pending) m
step ext ppr_cache_reset m = reset_ppr_cache m

unfoldable pub run : External → List Event → Manager → Manager
run ext [] m = m
run ext (e ∷ es) m = run ext es (step ext e m)
