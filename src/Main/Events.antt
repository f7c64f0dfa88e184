-- ===== src/Main/Events.antt =====
-- The page of ui/web/js/railviz/main.js as a state machine: the user's actions, the timers and the
-- answers, in any order.
pub mod Right
use motis.Prelude.{ℕ, Bool, true, false, List, [], ◌∷◌, Option, none, some, ◌==◌, if◌then◌else◌}
use mathlib.Core.Option
use motis.Prelude.Int.{ℤ}
use motis.Model.Preprocess.{Response}
use motis.External.{External}
use motis.Detail.Data.{DetailFilter, FilterWalk}
use motis.Main.State.{Call, Main, MapInfo}
use motis.Main.Views.{show_trains, set_detail_walks, setup_fps_limiter, set_use_fps_limiter}
use motis.Main.Requests.{
  send_trains_request, send_trips_request, set_detail_filter, data_received, end_loading,
  set_time_offset,
}

pub data Event : Type 0 where
  detail_filter_set : Option DetailFilter → Event
  detail_walks_set : List FilterWalk → Event
  trains_shown : Bool → Event
  fps_limiter_used : Bool → Event
  map_updated : MapInfo → Event
  time_offset_set : ℤ → Event
  -- the debounced `sendTrainsRequest`, and the timer of `sendTripsRequest`
  trains_due : ℕ → Event
  trips_due : Event
  answered : ℕ → Response → Event
  failed : ℕ → Event

abbrev pub find_call : ℕ → List Call → Option Call
find_call id [] = none
find_call id (c ∷ cs) = if c.call_id == id then some c else find_call id cs

abbrev remove_call : ℕ → List Call → List Call
remove_call id [] = []
remove_call id (c ∷ cs) = if c.call_id == id then cs else c ∷ remove_call id cs

abbrev without_call : ℕ → Main → Main
without_call id m = record m { calls = remove_call id m.calls }

-- A call that is under way is answered, or fails; of another one nothing is heard.
unfoldable pub answer : External → ℕ → Response → Option Call → Main → Option Main
answer ext id response none m = some m
answer ext id response (some call) m =
    data_received ext response call.only_filtered_trips id (without_call id m)

unfoldable pub fail : ℕ → Option Call → Main → Main
fail id none m = m
fail id (some call) m = end_loading (without_call id m)

unfoldable pub step : External → Event → Main → Option Main
step ext (detail_filter_set filter) m = set_detail_filter filter m
step ext (detail_walks_set walks) m = set_detail_walks ext walks m
step ext (trains_shown b) m = some (show_trains b m)
step ext (fps_limiter_used enabled) m = some (set_use_fps_limiter enabled m)
step ext (map_updated map_info) m = some (setup_fps_limiter (record m { map_info = some map_info }))
step ext (time_offset_set offset) m = some (set_time_offset offset m)
step ext (trains_due now) m = send_trains_request now m
step ext trips_due m = some (send_trips_request m)
step ext (answered id response) m = answer ext id response (find_call id m.calls) m
step ext (failed id) m = some (fail id (find_call id m.calls) m)

unfoldable pub run : External → List Event → Main → Option Main
run ext [] m = some m
run ext (e ∷ es) m = Option.bind (step ext e m) λ m'. run ext es m'
