-- ===== src/ConnectionManager/Events/Awaited/Run.antt =====
-- Every event of ui/web/js/railviz/connectionmgr.js leaves the open walks waited for.
use motis.Prelude.{
  ℕ, ◌≡◌, refl, sym, subst, Bool, true, false, not, List, [], ◌∷◌, some, all, ◌&&◌, Bool-cases,
  Option-cases, inl, inr, ◌==◌,
}
use motis.Model.Preprocess.{Content, preprocess}
use motis.External.{External}
use motis.Model.Train.{TripId}
use motis.Api.{SearchOptions}
use motis.ConnectionManager.Walks.{Walk, WalkEntry, osrm, ppr, Route, Coordinates}
use motis.ConnectionManager.Walks.Grouping.{IsNumbered}
use motis.ConnectionManager.State.{
  Manager, Call, Purpose, received, for_trips, for_walk, end_call, find_call,
}
use motis.ConnectionManager.Requests.{
  data_is_complete, is_open, show_connections, set_connections, request_walks, request_segments,
  group_walks,
}
use motis.ConnectionManager.Trips.{link_content}
use motis.ConnectionManager.Events.{
  Answer, is_last, trip_data_received, best_route, change_walk, handle_ppr_response,
  handle_osrm_response, walk_data_received, walk_failed, reset_ppr_cache, answer_to, failure_of,
  Event, connections_set, answered, failed, ppr_cache_reset, report, step, run,
}
use motis.ConnectionManager.Events.Shown.{ShowsComplete}
use motis.ConnectionManager.Events.Shown.Run.{step-Fine}
use motis.ConnectionManager.Events.Awaited.{AreAwaited}
use motis.ConnectionManager.Events.Awaited.Asking.{request_segments-AllAsked}
use motis.ConnectionManager.Events.Awaited.Ending.{
  Waits, show_connections-Waits, settled-Waits, trips_ended-Waits,
}

request_walks-Waits : (options : SearchOptions) (m : Manager) → Waits (request_walks options m)
unfolding request_walks
request_walks-Waits options m =
    let grouped = group_walks m.connections [] in
    let with_ids = record m { connections = grouped.connections } in
    let asked = request_segments options grouped.entries with_ids in
    let (grows, all) = request_segments-AllAsked options grouped.entries with_ids in
    show_connections-Waits (record asked.manager { walk_data = asked.entries })
      (subst (λ n. AreAwaited n asked.manager.pending asked.entries) (sym grows.1) all)

link_content-Waits :
    (equal : TripId → TripId → Bool) (content : Content) (m : Manager)
    → Waits m
    → Waits (link_content equal content m)
unfolding link_content
link_content-Waits equal content m h = h

trips-Waits :
    (ext : External) (answer : Answer) (k : ℕ) (m : Manager)
    → Waits (end_call k m)
    → Waits (trip_data_received ext answer.trips k m)
unfolding trip_data_received
trips-Waits ext answer k m h = elim (Bool-cases (is_last k m.last_trips_request)) [
  | inr e ↦ rw e h
  | inl e ↦ elim (Option-cases (preprocess ext.decode ext.from_lng_lat answer.trips)) [
    | inl p ↦ rw (e, p) h
    | inr (content, p) ↦
        let m' = record (end_call k m) { trip_data = some (received answer.trips) } in
        rw (e, p)
          (show_connections-Waits (link_content ext.deep_equal content m')
            (link_content-Waits ext.deep_equal content m' h))
  ]
]

handle_ppr_response-Waits :
    (g i : ℕ) (walk : Walk) (routes : List (List Route)) (m : Manager)
    → ((f : WalkEntry → WalkEntry)
        → ((w : WalkEntry) → is_open (f w) ≡ false)
        → Waits (change_walk g i f m))
    → Waits (handle_ppr_response g i walk routes m)
unfolding handle_ppr_response
handle_ppr_response-Waits g i walk routes m h = elim (Option-cases (best_route walk routes)) [
  | inl e ↦ rw (e, handle_ppr_response) (h _ (λ w. refl))
  | inr (route, e) ↦ rw (e, handle_ppr_response) (h _ (λ w. refl))
]

handle_osrm_response-Waits :
    (g i : ℕ) (walk : Walk) (polyline : Coordinates) (m : Manager)
    → ((f : WalkEntry → WalkEntry)
        → ((w : WalkEntry) → is_open (f w) ≡ false)
        → Waits (change_walk g i f m))
    → Waits (handle_osrm_response g i walk polyline m)
unfolding handle_osrm_response
handle_osrm_response-Waits g i walk polyline m h = h _ (λ w. refl)

answer_to-Waits :
    (ext : External) (answer : Answer) (k : ℕ) (p : Purpose) (m : Manager) {c : Call}
    → find_call k m.pending ≡ some c
    → c.purpose ≡ p
    → IsNumbered 0 m.walk_data
    → Waits m
    → Waits (answer_to ext answer k p m)
unfolding answer_to walk_data_received
answer_to-Waits ext answer k for_trips m e p n h =
    trips-Waits ext answer k m (trips_ended-Waits k m e p h)
answer_to-Waits ext answer k (for_walk g i walk osrm) m e p n h = show_connections-Waits _ (
    handle_osrm_response-Waits g i walk answer.polyline (end_call k m)
      (λ f settled. settled-Waits k g i walk osrm f m e p settled n h))
answer_to-Waits ext answer k (for_walk g i walk ppr) m e p n h = show_connections-Waits _ (
    handle_ppr_response-Waits g i walk answer.routes (end_call k m)
      (λ f settled. settled-Waits k g i walk ppr f m e p settled n h))

end_call-show_connections :
    (k : ℕ) (m : Manager) → Waits (end_call k m) → Waits (end_call k (show_connections m))
unfolding end_call show_connections
end_call-show_connections k m h = elim (Bool-cases (data_is_complete m)) [
  | inl e ↦ rw e h
  | inr e ↦ rw e h
]

end_call-change_walk :
    (k g i : ℕ) (f : WalkEntry → WalkEntry) (m : Manager)
    → end_call k (change_walk g i f m) ≡ change_walk g i f (end_call k m)
unfolding end_call change_walk
end_call-change_walk k g i f m = elim (Bool-cases (g == m.generation)) [
  | inl e ↦ rw e refl
  | inr e ↦ rw e refl
]

failure_of-Waits :
    (k : ℕ) (p : Purpose) (m : Manager) {c : Call}
    → find_call k m.pending ≡ some c
    → c.purpose ≡ p
    → IsNumbered 0 m.walk_data
    → Waits m
    → Waits (failure_of k p m)
unfolding failure_of walk_failed
failure_of-Waits k for_trips m e p n h = trips_ended-Waits k m e p h
failure_of-Waits k (for_walk g i walk router) m e p n h =
    let f : WalkEntry → WalkEntry = λ w. record w { error = true } in
    end_call-show_connections k (change_walk g i f m) (
      subst Waits (sym (end_call-change_walk k g i f m))
        (settled-Waits k g i walk router f m e p fails n h))
  where
    fails : (w : WalkEntry) → is_open (record w { error = true }) ≡ false
    fails w = elim (Option-cases w.polyline) [ inl q ↦ rw q refl | inr (line, q) ↦ rw q refl ]

step-Waits :
    (ext : External) (e : Event) (m : Manager)
    → IsNumbered 0 m.walk_data
    → Waits m
    → Waits (step ext e m)
unfolding step report reset_ppr_cache set_connections
step-Waits ext (connections_set options cs) m n h = request_walks-Waits options _
step-Waits ext (answered k answer) m n h = elim (Option-cases (find_call k m.pending)) [
  | inl e ↦ rw (e, report) h
  | inr (c, e) ↦ rw (e, report) (answer_to-Waits ext answer k c.purpose m e refl n h)
]
step-Waits ext (failed k) m n h = elim (Option-cases (find_call k m.pending)) [
  | inl e ↦ rw (e, report) h
  | inr (c, e) ↦ rw (e, report) (failure_of-Waits k c.purpose m e refl n h)
]
step-Waits ext ppr_cache_reset m n h = h

-- Whatever connections are set and in whatever order the calls are answered or fail: if what has been
-- shown before was complete, the walks were numbered and each open one had a call under way, then in
-- the end each walk that has neither a polyline nor an error still has a call for it under way.
pub run-Waits :
    (ext : External) (es : List Event) (m : Manager)
    → ShowsComplete m
    → Waits m
    → Waits (run ext es m)
unfolding run
run-Waits ext [] m s h = h
run-Waits ext (e ∷ es) m s h =
    run-Waits ext es (step ext e m) (step-Fine ext e m s) (step-Waits ext e m s.numbered h)

none_pending :
    (generation : ℕ) (ws : List WalkEntry)
    → AreAwaited generation [] ws
    → all (λ w. not (is_open w)) ws ≡ true
none_pending generation [] a = refl
none_pending generation (w ∷ ws) a = elim (Bool-cases (is_open w)) [
  | inl o ↦ absurd (true≢false (sym (a.0 o)))
  | inr o ↦ rw o (none_pending generation ws a.1)
]
  where
    true≢false : true ≡ false → ⊥
    true≢false e = cc

-- From a state in which what has been shown was complete, the walks were numbered and each open one
-- had a call under way: whatever connections are set and in whatever order the calls end, once no
-- call is under way the data are complete exactly if the trips are, so no walk stays open.
pub run-settles :
    (ext : External) (es : List Event) (m : Manager)
    → ShowsComplete m
    → Waits m
    → (run ext es m).pending ≡ []
    → data_is_complete (run ext es m) ≡ (run ext es m).trips_complete
unfolding data_is_complete
run-settles ext es m s h none_left =
    let m' = run ext es m in
    let all_settled =
      none_pending m'.generation m'.walk_data (
        subst (λ cs. AreAwaited m'.generation cs m'.walk_data) none_left
          (run-Waits ext es m s h)) in
    rw all_settled (and_true m'.trips_complete)
  where
    and_true : (b : Bool) → (b && true) ≡ b
    and_true true = refl
    and_true false = refl
