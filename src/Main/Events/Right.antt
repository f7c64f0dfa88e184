-- ===== src/Main/Events/Right.antt =====
-- Whatever happens on the page of ui/web/js/railviz/main.js, the map shows one of the two views.
use motis.Prelude.{
  ℕ, ◌≡◌, refl, Bool, true, false, List, [], ◌∷◌, Option, none, some, Holds, Holds-some,
  Option-cases, Bool-cases, inl, inr,
}
use mathlib.Core.Option
use motis.Model.Preprocess.{Response, Content, preprocess}
use motis.External.{External}
use motis.Detail.Data.{DetailFilter, DetailTrips}
use motis.Model.Train.{Train}
use motis.Render
use motis.Main.State.{Main, Call, MapInfo}
use motis.Main.Views.{set_use_fps_limiter}
use motis.Main.Views.Shown.{
  Draws, Draws-IsConsistent, IsConsistent, set_filter-IsConsistent, show_full_data-IsConsistent,
  show_detail_data-IsConsistent, show_trains-IsConsistent, set_detail_walks-IsConsistent,
  setup_fps_limiter-IsConsistent,
}
use motis.Main.Requests.{
  send, send_trains_request, send_trips_for, send_trips_request, set_detail_filter, trips_received,
  trains_received, use_content, end_loading, last_request, is_last, data_received, set_time_offset,
}
use motis.Main.Events.{
  Event, detail_filter_set, detail_walks_set, trains_shown, fps_limiter_used, map_updated,
  time_offset_set, trains_due, trips_due, answered, failed, find_call, answer, fail, step, run,
}

send_trips_for-IsConsistent :
    (filter : Option DetailFilter) (m : Main)
    → IsConsistent m
    → IsConsistent (send_trips_for filter m)
unfolding send_trips_for send
send_trips_for-IsConsistent none m h = h
send_trips_for-IsConsistent (some filter) m h = h

send_trains_request-IsConsistent :
    (now : ℕ) (m : Main) (map_info : Option MapInfo)
    → m.map_info ≡ map_info
    → IsConsistent m
    → Holds IsConsistent (send_trains_request now m)
unfolding send_trains_request send
send_trains_request-IsConsistent now m none e h = rw e tt
send_trains_request-IsConsistent now m (some map_info) e h = rw e h

set_detail_filter-IsConsistent :
    (filter : Option DetailFilter) (m : Main)
    → IsConsistent m
    → Holds IsConsistent (set_detail_filter filter m)
unfolding set_detail_filter send_trips_request
set_detail_filter-IsConsistent none m h = show_full_data-IsConsistent _
set_detail_filter-IsConsistent (some filter) m h =
    send_trips_for-IsConsistent (some filter) _ (set_filter-IsConsistent filter m h)

-- Without a filter the full data are shown, whatever the trips are; with one that waits for its trips
-- the full data may change.
Draws-trips_changed :
    (showing : Bool) (filter : Option DetailFilter) (old new : Option DetailTrips)
    (full : Option Content) (trains : List Train)
    → filter ≡ none
    → Draws showing filter old full trains
    → Draws showing filter new full trains
Draws-trips_changed false none old new full trains e h = h
Draws-trips_changed false (some filter) old new full trains e h = tt
Draws-trips_changed true none old new full trains e h = h
Draws-trips_changed true (some filter) old new full trains e h = cc

Draws-full_changed :
    (showing : Bool) (filter : Option DetailFilter) (trips : Option DetailTrips)
    (old new : Option Content) (trains : List Train) {f : DetailFilter}
    → filter ≡ some f
    → Draws showing filter trips old trains
    → Draws showing filter trips new trains
Draws-full_changed showing none trips old new trains e h = cc
Draws-full_changed false (some filter) trips old new trains e h = tt
Draws-full_changed true (some filter) none old new trains e h = h
Draws-full_changed true (some filter) (some trips) old new trains e h = h

trips_received-IsConsistent :
    (ext : External) (content : Content) (filter : Option DetailFilter) (m : Main)
    → m.detail_filter ≡ filter
    → IsConsistent m
    → Holds IsConsistent (trips_received ext content filter m)
unfolding trips_received
trips_received-IsConsistent ext content none m e h =
    Draws-IsConsistent m m.detail_filter _ m.full_data h (
      Draws-trips_changed m.showing_detail_data m.detail_filter m.detail_trips _ m.full_data
        m.render.data_trains e h.draws)
trips_received-IsConsistent ext content (some filter) m e h =
    show_detail_data-IsConsistent ext filter _ _

trains_received-IsConsistent :
    (content : Content) (filter : Option DetailFilter) (m : Main)
    → m.detail_filter ≡ filter
    → IsConsistent m
    → Holds IsConsistent (trains_received content filter m)
unfolding trains_received
trains_received-IsConsistent content none m e h = show_full_data-IsConsistent _
trains_received-IsConsistent content (some filter) m e h =
    let changed = Draws-IsConsistent m m.detail_filter m.detail_trips _ h (
      Draws-full_changed m.showing_detail_data m.detail_filter m.detail_trips m.full_data _
        m.render.data_trains e h.draws) in
    record {
      base_shown = changed.base_shown;
      extra_shown = changed.extra_shown;
      connections_shown = changed.connections_shown;
      detail_shown = changed.detail_shown;
      trains_shown = changed.trains_shown;
      zoom = changed.zoom;
      draws = changed.draws;
    }

use_content-IsConsistent :
    (ext : External) (only : Bool) (content : Content) (m : Main)
    → IsConsistent m
    → Holds IsConsistent (use_content ext only content m)
unfolding use_content
use_content-IsConsistent ext true content m h =
    trips_received-IsConsistent ext content m.detail_filter m refl h
use_content-IsConsistent ext false content m h =
    trains_received-IsConsistent content m.detail_filter m refl h

data_received-IsConsistent :
    (ext : External) (response : Response) (only : Bool) (id : ℕ) (m : Main)
    → IsConsistent m
    → Holds IsConsistent (data_received ext response only id m)
unfolding data_received end_loading Option.bind
data_received-IsConsistent ext response only id m h =
    elim (Bool-cases (is_last id (last_request only m))) [
      | inr e ↦ rw e h
      | inl e ↦ elim (Option-cases (preprocess ext.decode ext.from_lng_lat response)) [
        | inl f ↦ rw (e, f) tt
        | inr (content, f) ↦ rw (e, f) (use_content-IsConsistent ext only content (end_loading m) h)
      ]
    ]

answer-IsConsistent :
    (ext : External) (id : ℕ) (response : Response) (call : Option Call) (m : Main)
    → IsConsistent m
    → Holds IsConsistent (answer ext id response call m)
unfolding answer
answer-IsConsistent ext id response none m h = h
answer-IsConsistent ext id response (some call) m h =
    data_received-IsConsistent ext response call.only_filtered_trips id _ h

fail-IsConsistent :
    (id : ℕ) (call : Option Call) (m : Main) → IsConsistent m → IsConsistent (fail id call m)
unfolding fail end_loading
fail-IsConsistent id none m h = h
fail-IsConsistent id (some call) m h = h

step-IsConsistent :
    (ext : External) (e : Event) (m : Main) → IsConsistent m → Holds IsConsistent (step ext e m)
unfolding step set_use_fps_limiter set_time_offset Render.set_time_offset send_trains_request send
    send_trips_request
step-IsConsistent ext (detail_filter_set filter) m h = set_detail_filter-IsConsistent filter m h
step-IsConsistent ext (detail_walks_set walks) m h = set_detail_walks-IsConsistent ext walks m h
step-IsConsistent ext (trains_shown b) m h = show_trains-IsConsistent b m h
step-IsConsistent ext (fps_limiter_used enabled) m h = setup_fps_limiter-IsConsistent _ h
step-IsConsistent ext (map_updated map_info) m h = setup_fps_limiter-IsConsistent _ h
step-IsConsistent ext (time_offset_set offset) m h = h
step-IsConsistent ext (trains_due now) m h =
    send_trains_request-IsConsistent now m m.map_info refl h
step-IsConsistent ext trips_due m h = send_trips_for-IsConsistent m.detail_filter m h
step-IsConsistent ext (answered id response) m h =
    answer-IsConsistent ext id response (find_call id m.calls) m h
step-IsConsistent ext (failed id) m h = fail-IsConsistent id (find_call id m.calls) m h

-- Whatever the user does and in whatever order the timers and the answers come, if the page was
-- consistent before, it still is when the run ends without a TypeError. The view is that of the full
-- data or that of the detail data. The tiles and the extra lines are enabled exactly if the full data
-- are shown and trains are wanted, the connections exactly if the full data are shown, and the detail
-- layer exactly if the detail data are shown and the trains are drawn (until it first gets data it may
-- be enabled without any). With the full data the trains are drawn exactly if they are wanted. The
-- least zoom is that of the view. In the detail view there are a filter and trips, and the trains are
-- those of the trips; without a filter they are those of the full data.
pub run-IsConsistent :
    (ext : External) (es : List Event) (m : Main)
    → IsConsistent m
    → Holds IsConsistent (run ext es m)
unfolding run Option.bind
run-IsConsistent ext [] m h = h
run-IsConsistent ext (e ∷ es) m h = elim (Option-cases (step ext e m)) [
  | inl f ↦ rw f tt
  | inr (m', f) ↦ rw f (
      run-IsConsistent ext es m'
        (Holds-some IsConsistent (step ext e m) (step-IsConsistent ext e m h) f))
]
