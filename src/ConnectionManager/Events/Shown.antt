-- ===== src/ConnectionManager/Events/Shown.antt =====
-- What ui/web/js/railviz/connectionmgr.js passes on to `Path.Connections.setData`: never a walk that
-- is still being looked up.
pub mod Run
use motis.Prelude.{
  ℕ, zero, suc, ◌+◌, ◌≡◌, refl, ap, subst, sym, ◌∙◌, ◌==◌, Bool, true, false, not, List, [], ◌∷◌,
  ◌++◌, Option, none, some, if◌then◌else◌, all, All, arith, Bool-cases, Option-cases, List-cases,
  inl, inr,
}
use motis.Model.Preprocess.{Content, preprocess}
use motis.External.{External}
use motis.Model.Train.{TripId}
use motis.Api.{SearchOptions}
use motis.ConnectionManager.Walks.{
  Walk, WalkEntry, Router, osrm, ppr, Route, Coordinates, set_min_cid,
}
use motis.ConnectionManager.Walks.Grouping.{IsNumbered, add_walks-IsNumbered}
use motis.ConnectionManager.State.{
  Connection, Shown, Manager, Purpose, received, for_trips, for_walk, send_request, end_call,
  find_call,
}
use motis.ConnectionManager.Requests.{
  is_open, data_is_complete, shown_now, show_connections, set_connections, request_trips,
  request_walks, request_segments, Requested, request_walk_segment, ask_osrm, ask_ppr, has_polyline,
  uses_osrm, lookup_key, all_trips, group_walks,
}
use motis.ConnectionManager.Walks.{walk_id, add_walks}
use motis.ConnectionManager.Trips.{link_content, update_at}
use motis.ConnectionManager.Events.{
  Answer, is_last, trip_data_received, best_route, change_walk, handle_ppr_response,
  handle_osrm_response, walk_data_received, walk_failed, reset_ppr_cache, answer_to, failure_of,
  Event, connections_set, answered, failed, ppr_cache_reset, report, step, run,
}

-- Each walk has a polyline or has failed, and its id is its place.
pub record IsComplete (s : Shown) : Type 0 where
  pub settled : all (λ w. not (is_open w)) s.walk_data ≡ true
  pub numbered : IsNumbered 0 s.walk_data

-- So it is with everything that has been shown, and the present walks are numbered.
pub record Fine (walk_data : List WalkEntry) (shown : List Shown) : Type 0 where
  pub numbered : IsNumbered 0 walk_data
  pub complete : All IsComplete shown

abbrev pub ShowsComplete : Manager → Type 0
ShowsComplete m = Fine m.walk_data m.shown

All-snoc {ℓ κ} :
    {A : Type ℓ} (P : A → Type κ) (xs : List A) (x : A) → All P xs → P x → All P (xs ++ x ∷ [])
All-snoc P [] x h k = (k, tt)
All-snoc P (y ∷ xs) x h k = (h.0, All-snoc P xs x h.1 k)

show_connections-Fine : (m : Manager) → ShowsComplete m → ShowsComplete (show_connections m)
unfolding show_connections data_is_complete
show_connections-Fine m h = elim (Bool-cases m.trips_complete) [
  | inr e ↦ rw e h
  | inl e ↦ elim (Bool-cases (all (λ w. not (is_open w)) m.walk_data)) [
    | inr f ↦ rw (e, f) h
    | inl f ↦
        rw (e, f)
          (record {
            numbered = h.numbered;
            complete =
                All-snoc IsComplete m.shown (shown_now m) h.complete
                  (record { settled = f; numbered = h.numbered });
          })
  ]
]

update_at-IsNumbered :
    (i k : ℕ) (f : WalkEntry → WalkEntry) (ws : List WalkEntry)
    → ((w : WalkEntry) → (f w).id ≡ w.id)
    → IsNumbered k ws
    → IsNumbered k (update_at i f ws)
update_at-IsNumbered i k f [] same n = tt
update_at-IsNumbered zero k f (w ∷ ws) same n = (same w ∙ n.0, n.1)
update_at-IsNumbered (suc i) k f (w ∷ ws) same n =
    (n.0, update_at-IsNumbered i (k + 1) f ws same n.1)

change_walk-Fine :
    (generation id : ℕ) (f : WalkEntry → WalkEntry) (m : Manager)
    → ((w : WalkEntry) → (f w).id ≡ w.id)
    → ShowsComplete m
    → ShowsComplete (change_walk generation id f m)
unfolding change_walk
change_walk-Fine generation id f m same h = elim (Bool-cases (generation == m.generation)) [
  | inl e ↦ rw e (record {
    numbered = update_at-IsNumbered id 0 f m.walk_data same h.numbered;
    complete = h.complete;
  })
  | inr e ↦ rw e h
]

-- What a request for a walk leaves as it was.
abbrev Asked : WalkEntry → Manager → Requested → Type 0
Asked w m r = (r.entry.id ≡ w.id) × (r.manager.shown ≡ m.shown)

ask_osrm-Asked : (c : Option Coordinates) (w : WalkEntry) (m : Manager) → Asked w m (ask_osrm c w m)
unfolding ask_osrm send_request
ask_osrm-Asked none w m = (refl, refl)
ask_osrm-Asked (some c) w m = (refl, refl)

ask_ppr-Asked :
    (options : SearchOptions) (r : Option Route) (w : WalkEntry) (m : Manager)
    → Asked w m (ask_ppr options r w m)
unfolding ask_ppr send_request
ask_ppr-Asked options none w m = (refl, refl)
ask_ppr-Asked options (some r) w m = (refl, refl)

request_walk_segment-Asked :
    (options : SearchOptions) (w : WalkEntry) (m : Manager)
    → Asked w m (request_walk_segment options w m)
unfolding request_walk_segment
request_walk_segment-Asked options w m = elim (Bool-cases (uses_osrm w.walk)) [
  | inl e ↦ rw e (ask_osrm-Asked (lookup_key (walk_id w.walk) m.osrm_cache) w m)
  | inr e ↦ rw e (ask_ppr-Asked options (lookup_key (walk_id w.walk) m.ppr_cache) w m)
]

request_segments-Asked :
    (options : SearchOptions) (i : ℕ) (ws : List WalkEntry) (m : Manager)
    → IsNumbered i ws
    → let r = request_segments options ws m in IsNumbered i r.entries × (r.manager.shown ≡ m.shown)
unfolding request_segments set_min_cid
request_segments-Asked options i [] m n = (tt, refl)
request_segments-Asked options i (w ∷ ws) m n = elim (Bool-cases (has_polyline (set_min_cid w))) [
  | inl e ↦
      let (numbered, same) = request_segments-Asked options (i + 1) ws m n.1 in
      rw e ((n.0, numbered), same)
  | inr e ↦
      let first = request_walk_segment options (set_min_cid w) m in
      let (id, shown) = request_walk_segment-Asked options (set_min_cid w) m in
      let (numbered, same) = request_segments-Asked options (i + 1) ws first.manager n.1 in
      rw e ((id ∙ n.0, numbered), same ∙ shown)
]

group_walks-IsNumbered :
    (cs : List Connection) (ws : List WalkEntry)
    → IsNumbered 0 ws
    → IsNumbered 0 (group_walks cs ws).entries
unfolding group_walks
group_walks-IsNumbered [] ws n = n
group_walks-IsNumbered (c ∷ cs) ws n =
    group_walks-IsNumbered cs (add_walks c.id c.walks ws).entries
      (add_walks-IsNumbered c.id c.walks ws n)

request_walks-Fine :
    (options : SearchOptions) (m : Manager)
    → ShowsComplete m
    → ShowsComplete (request_walks options m)
unfolding request_walks
request_walks-Fine options m h =
    let grouped = group_walks m.connections [] in
    let with_ids = record m { connections = grouped.connections } in
    let asked = request_segments options grouped.entries with_ids in
    let (numbered, same) =
      request_segments-Asked options 0 grouped.entries with_ids
        (group_walks-IsNumbered m.connections [] tt) in
    show_connections-Fine (record asked.manager { walk_data = asked.entries })
      (record { numbered = numbered; complete = subst (All IsComplete) (sym same) h.complete })

request_trips-Fine :
    (ext : External) (m : Manager) → ShowsComplete m → ShowsComplete (request_trips ext m)
unfolding request_trips send_request
request_trips-Fine ext m h = elim (List-cases (all_trips m.connections)) [
  | inl e ↦ rw (e, request_trips) (show_connections-Fine (record m { trips_complete = true }) h)
  | inr (trip, trips, e) ↦ rw (e, request_trips) h
]

set_connections-Fine :
    (ext : External) (options : SearchOptions) (cs : List Connection) (m : Manager)
    → ShowsComplete m
    → ShowsComplete (set_connections ext options cs m)
unfolding set_connections
set_connections-Fine ext options cs m h =
    request_walks-Fine options _
      (request_trips-Fine ext _ (record { numbered = tt; complete = h.complete }))
