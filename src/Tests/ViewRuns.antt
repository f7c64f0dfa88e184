-- ===== src/Tests/ViewRuns.antt =====
-- Runs of the other scripts below ui/web/js: the page, the detail view, the sharing systems, the
-- markers and the pair of maps.
use motis.Prelude.{
  ℕ, ◌≡◌, refl, true, false, List, [], ◌∷◌, none, some, All, Holds, get_elem?, arith, inl, inr,
  String, str_eq,
}
use motis.Prelude.Int.{ℤ, pos}
use motis.External.{External}
use motis.Trains.State.{Trains}
use mathlib.Core.Option
use motis.Model.Train.{first_coordinate, last_coordinate, end_of, last?}
use motis.Detail.Walks.{DetailTrain, load_adjusted_walk, adjust_walk}
use motis.Detail.Walks.Adjusted.{StartsAt, EndsAt, load_adjusted_walk-meets, adjust_walk-idempotent}
use motis.Detail.Styles.{Style, is_highlighted, style_trains}
use motis.Detail.Styles.Least.{Shows, style_trains-Shows}
use motis.Detail.Data.{DetailFilter}
use motis.Main.State.{Main}
use motis.Main.Views.Shown.{IsConsistent}
use motis.Main.Events.{Event, detail_filter_set, trains_due, trains_shown, answered, run}
use motis.Main.Events.Right.{run-IsConsistent}
use motis.Gbfs.{SharingOptions, has, sync}
use motis.Gbfs.Update.{sync-has}
use motis.Markers.{Marker, named, Slot, Setting, Markers, set_markers}
use motis.Markers.Placed.{ArePlaced, IsAt, set_markers-IsAt}
use motis.MapSync.{View, MapView}
use motis.MapSync
use motis.MapSync.Still.{IsSynced, sync-IsSynced}
use motis.Tests.Data.{from_lng_lat, decode, lat_lng, train, trip_id, response}

abbrev ext : External
ext = record {
  decode = decode;
  from_lng_lat = from_lng_lat;
  deep_equal = λ a b. str_eq a.line_id b.line_id;
}

abbrev trains : Trains
trains = record {
  trains = [];
  initialized = false;
  vertices = record { train_count = none; buffer_dirty = false; buffer = [] };
  positions = record {
    trains = [];
    position_data = [];
    progress_data = [];
    anchor = none;
    positions = [];
    progresses = [];
  };
  colors = record { trains = none; buffer_dirty = false; buffer = [] };
  use_category_color = true;
}

abbrev page : Main
page = record {
  map_info = some (record { zoom = 12; north_west = lat_lng 9 0; south_east = lat_lng 0 9 });
  time_offset = pos 0;
  detail_filter = none;
  full_data = none;
  detail_trips = none;
  showing_detail_data = false;
  last_trains_request = none;
  last_trains_count = 0;
  last_trips_request = none;
  use_fps_limiter = true;
  trains_enabled = true;
  last_call_id = 0;
  calls = [];
  loading = record { loading_count = pos 0; spinner = none };
  base = record { visible = none; enabled = true };
  extra = record { map = none; lines = none; enabled = true };
  detail = record { map = none; features = none; enabled = true };
  connections = record {
    map = none;
    features = none;
    enabled = true;
    connections = none;
    trip_data = none;
    walk_data = none;
  };
  render = record {
    trains = trains;
    time_offset = pos 0;
    has_map = false;
    offscreen = none;
    min_zoom = 0;
    last_frame = none;
    target_fps = none;
    force_draw = true;
    trains_enabled = true;
    data_trains = [];
  };
}

abbrev filter : DetailFilter
filter = record {
  trains =
      record {
        trip = trip_id;
        sections = record { departure_station_id = "A"; arrival_station_id = "B" } ∷ [];
      }
      ∷ [];
  walks = [];
  interchange_stations = [];
}

abbrev events : List Event
events =
    trains_due 5000
    ∷ answered 1 response
    ∷ detail_filter_set (some filter)
    ∷ answered 2 response
    ∷ trains_shown false
    ∷ detail_filter_set none
    ∷ []

run-IsConsistent_example : Holds IsConsistent (run ext events page)
run-IsConsistent_example = run-IsConsistent ext events page (record {
  base_shown = refl;
  extra_shown = refl;
  connections_shown = refl;
  detail_shown = inr (refl, refl);
  trains_shown = λ e. refl;
  zoom = refl;
  draws = refl;
})

abbrev detail_trains : List DetailTrain
detail_trains = record { train = train; highlight = true } ∷ []

load_adjusted_walk-meets_example :
    (wp : List ℤ) × (load_adjusted_walk "B" "A" detail_trains (pos 3 ∷ pos 4 ∷ []) ≡ some wp)
    × StartsAt (lat_lng 0 0) wp
    × EndsAt (lat_lng 0 0) wp
unfolding first_coordinate last_coordinate end_of last? Option.bind
load_adjusted_walk-meets_example =
    load_adjusted_walk-meets "B" "A" detail_trains (pos 3 ∷ pos 4 ∷ [])
      (record { train = train; highlight = true }) (record { train = train; highlight = true }) refl
      refl refl refl

adjust_walk-idempotent_example :
    adjust_walk (lat_lng 1 2 ∷ []) [] (adjust_walk (lat_lng 1 2 ∷ []) [] (pos 3 ∷ pos 4 ∷ []))
    ≡ adjust_walk (lat_lng 1 2 ∷ []) [] (pos 3 ∷ pos 4 ∷ [])
adjust_walk-idempotent_example = adjust_walk-idempotent (lat_lng 1 2 ∷ []) [] (pos 3 ∷ pos 4 ∷ [])

abbrev unstyled : Style
unstyled = record { clasz = none; highlight = false }

style_trains-Shows_example :
    (s : Style) × (get_elem?
        (style_trains ext.deep_equal filter.trains (train ∷ []) (unstyled ∷ unstyled ∷ [])).styles
        1
      ≡ some s)
    × Shows 5 (is_highlighted ext.deep_equal filter.trains train) s
style_trains-Shows_example =
    style_trains-Shows ext.deep_equal filter.trains 1 0 (train ∷ []) (unstyled ∷ unstyled ∷ [])
      (omega arith, tt) refl (inl refl) refl

abbrev system : String → SharingOptions
system tag = record { tag = tag }

sync-has_example :
    (os : List SharingOptions) × (sync (system "a" ∷ system "b" ∷ []) (system "b" ∷ system "c" ∷ [])
      ≡ some os)
    × ((tag : String) → has tag os ≡ has tag (system "a" ∷ system "b" ∷ []))
sync-has_example =
    sync-has (system "a" ∷ system "b" ∷ []) (system "b" ∷ system "c" ∷ []) (refl, (refl, tt))

abbrev marker : Marker
marker = record { position = lat_lng 1 1; title = named "Start" "Alpha"; on_map = true }

abbrev slot : Slot
slot = record {
  marker = some marker;
  position = some (lat_lng 1 1);
  name = "Alpha";
  text = "Start";
}

abbrev markers : Markers
markers = record { start = slot; destination = slot; visible = true }

abbrev setting : Setting
setting = record { position = some (lat_lng 2 2); name = "Beta" }

set_markers-IsAt_example :
    let ms = set_markers setting setting markers in
    ArePlaced ms
    × (true ≡ true
        → IsAt (some (lat_lng 2 2)) "Start" "Beta" ms.start.marker
          × IsAt (some (lat_lng 2 2)) "Start" "Beta" ms.destination.marker)
set_markers-IsAt_example =
    set_markers-IsAt setting setting markers (record { start = refl; destination = refl })

abbrev map_view : ℕ → MapView
map_view zoom = record {
  view = record { center = lat_lng 1 1; zoom = zoom; bearing = pos 0; pitch = 0 };
  listeners = 1;
}

sync-IsSynced_example :
    let moved = MapSync.sync 1 (map_view 7).view (map_view 5 ∷ map_view 7 ∷ []) in
    All (IsSynced (map_view 7).view) moved.maps × (moved.nested ≡ 0)
sync-IsSynced_example =
    sync-IsSynced 1 (map_view 7).view (map_view 5 ∷ map_view 7 ∷ [])
      ((λ e. absurd (omega arith)), ((λ e. refl), tt))
