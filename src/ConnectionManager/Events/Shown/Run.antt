-- ===== src/ConnectionManager/Events/Shown/Run.antt =====
-- Every event of ui/web/js/railviz/connectionmgr.js keeps what has been shown complete.
use motis.Prelude.{ℕ, refl, Bool, List, [], ◌∷◌, some, All, Bool-cases, Option-cases, inl, inr}
use motis.Model.Preprocess.{Content, preprocess}
use motis.External.{External}
use motis.Model.Train.{TripId}
use motis.ConnectionManager.Walks.{Walk, osrm, ppr, Route, Coordinates}
use motis.ConnectionManager.State.{
  Manager, Purpose, received, for_trips, for_walk, end_call, find_call,
}
use motis.ConnectionManager.Trips.{link_content}
use motis.ConnectionManager.Events.{
  Answer, is_last, trip_data_received, best_route, handle_ppr_response, handle_osrm_response,
  walk_data_received, walk_failed, reset_ppr_cache, answer_to, failure_of, Event, connections_set,
  answered, failed, ppr_cache_reset, report, step, run,
}
use motis.ConnectionManager.Events.Shown.{
  IsComplete, ShowsComplete, show_connections-Fine, change_walk-Fine, set_connections-Fine,
}

link_content-Fine :
    (equal : TripId → TripId → Bool) (content : Content) (m : Manager)
    → ShowsComplete m
    → ShowsComplete (link_content equal content m)
unfolding link_content
link_content-Fine equal content m h = h

end_call-Fine : (id : ℕ) (m : Manager) → ShowsComplete m → ShowsComplete (end_call id m)
unfolding end_call
end_call-Fine id m h = h

trips-Fine :
    (ext : External) (answer : Answer) (id : ℕ) (m : Manager)
    → ShowsComplete m
    → ShowsComplete (trip_data_received ext answer.trips id m)
unfolding trip_data_received end_call
trips-Fine ext answer id m h = elim (Bool-cases (is_last id m.last_trips_request)) [
  | inr e ↦ rw e h
  | inl e ↦ elim (Option-cases (preprocess ext.decode ext.from_lng_lat answer.trips)) [
    | inl p ↦ rw (e, p) h
    | inr (content, p) ↦
        let m' = record (end_call id m) { trip_data = some (received answer.trips) } in
        rw (e, p)
          (show_connections-Fine (link_content ext.deep_equal content m')
            (link_content-Fine ext.deep_equal content m' h))
  ]
]

handle_ppr_response-Fine :
    (generation id : ℕ) (walk : Walk) (routes : List (List Route)) (m : Manager)
    → ShowsComplete m
    → ShowsComplete (handle_ppr_response generation id walk routes m)
unfolding handle_ppr_response
handle_ppr_response-Fine generation id walk routes m h =
    elim (Option-cases (best_route walk routes)) [
      | inl e ↦ rw (e, handle_ppr_response) (change_walk-Fine generation id _ m (λ w. refl) h)
      | inr (route, e) ↦
          rw (e, handle_ppr_response) (change_walk-Fine generation id _ m (λ w. refl) h)
    ]

handle_osrm_response-Fine :
    (generation id : ℕ) (walk : Walk) (polyline : Coordinates) (m : Manager)
    → ShowsComplete m
    → ShowsComplete (handle_osrm_response generation id walk polyline m)
unfolding handle_osrm_response
handle_osrm_response-Fine generation id walk polyline m h =
    change_walk-Fine generation id _ m (λ w. refl) h

answer_to-Fine :
    (ext : External) (answer : Answer) (id : ℕ) (purpose : Purpose) (m : Manager)
    → ShowsComplete m
    → ShowsComplete (answer_to ext answer id purpose m)
unfolding answer_to walk_data_received
answer_to-Fine ext answer id for_trips m h = trips-Fine ext answer id m h
answer_to-Fine ext answer id (for_walk g i walk osrm) m h =
    show_connections-Fine _
      (handle_osrm_response-Fine g i walk answer.polyline _ (end_call-Fine id m h))
answer_to-Fine ext answer id (for_walk g i walk ppr) m h =
    show_connections-Fine _
      (handle_ppr_response-Fine g i walk answer.routes _ (end_call-Fine id m h))

failure_of-Fine :
    (id : ℕ) (purpose : Purpose) (m : Manager)
    → ShowsComplete m
    → ShowsComplete (failure_of id purpose m)
unfolding failure_of walk_failed
failure_of-Fine id for_trips m h = end_call-Fine id m h
failure_of-Fine id (for_walk g i walk router) m h =
    end_call-Fine id _ (show_connections-Fine _ (change_walk-Fine g i _ m (λ w. refl) h))

pub step-Fine :
    (ext : External) (e : Event) (m : Manager) → ShowsComplete m → ShowsComplete (step ext e m)
unfolding step report reset_ppr_cache
step-Fine ext (connections_set options cs) m h = set_connections-Fine ext options cs m h
step-Fine ext (answered id answer) m h = elim (Option-cases (find_call id m.pending)) [
  | inl e ↦ rw (e, report) h
  | inr (c, e) ↦ rw (e, report) (answer_to-Fine ext answer id c.purpose m h)
]
step-Fine ext (failed id) m h = elim (Option-cases (find_call id m.pending)) [
  | inl e ↦ rw (e, report) h
  | inr (c, e) ↦ rw (e, report) (failure_of-Fine id c.purpose m h)
]
step-Fine ext ppr_cache_reset m h = h

run-Fine :
    (ext : External) (es : List Event) (m : Manager)
    → ShowsComplete m
    → ShowsComplete (run ext es m)
unfolding run
run-Fine ext [] m h = h
run-Fine ext (e ∷ es) m h = run-Fine ext es (step ext e m) (step-Fine ext e m h)

-- Whatever connections are set and in whatever order the calls are answered or fail: if all that has
-- been shown before was complete, then so is all that is shown, that is, each walk has a polyline or
-- has failed, and its id is its place.
pub run-IsComplete :
    (ext : External) (es : List Event) (m : Manager)
    → ShowsComplete m
    → All IsComplete (run ext es m).shown
run-IsComplete ext es m h = (run-Fine ext es m h).complete
