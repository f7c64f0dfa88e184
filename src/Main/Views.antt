-- ===== src/Main/Views.antt =====
-- `showFullData`, `showDetailData`, `showTrains`, `setDetailWalks` and `setupFpsLimiter` of
-- ui/web/js/railviz/main.js. `none` is a TypeError, after which the page's state is left open.
pub mod Shown
use motis.Prelude.{
  ℕ, Bool, true, false, ◌&&◌, ◌||◌, not, List, [], ◌∷◌, Option, none, some, String, str_eq, leb,
  if◌then◌else◌,
}
use mathlib.Core.Option
use motis.Prelude.Int.{ℤ, eq_ℤ}
use motis.Model.Train.{TripId, Train, Station}
use motis.Model.Preprocess.{Content}
use motis.External.{External}
use motis.Layers.{set_base_enabled, set_extra_data, set_extra_enabled}
use motis.Detail.Data.{DetailFilter, DetailTrips, FilterWalk, detail_features, show_features}
use motis.Detail.Data
use motis.Connections.Features
use motis.Connections.Highlight.{highlight_connections}
use motis.Render
use motis.Main.State.{Main, MapInfo}

abbrev filtered_min_zoom : ℕ
filtered_min_zoom = 14

abbrev pub trains_of : Option Content → Option (List Train)
trains_of content = Option.map (λ c. c.trains) content

unfoldable pub show_full_data : Main → Option Main
show_full_data m =
    Option.map
      (λ extra. record m {
        showing_detail_data = false;
        base = set_base_enabled m.trains_enabled m.base;
        extra = set_extra_enabled m.trains_enabled extra;
        detail = Data.set_enabled false m.detail;
        connections = Features.set_enabled true m.connections;
        render =
            Render.set_trains_enabled m.trains_enabled
              (Render.set_min_zoom 0 (Render.set_data (trains_of m.full_data) m.render));
      })
      (set_extra_data m.full_data m.extra)

-- All but `Path.Detail.setData`, with the trains of the trips; without trips `setData` does nothing.
unfoldable pub enable_detail : Option (List Train) → Main → Main
enable_detail trains m = record m {
  showing_detail_data = true;
  base = set_base_enabled false m.base;
  extra = set_extra_enabled false m.extra;
  detail = Data.set_enabled true m.detail;
  connections = highlight_connections [] (Features.set_enabled false m.connections);
  render =
      Render.set_trains_enabled true
        (Render.set_min_zoom filtered_min_zoom (Render.set_data trains m.render));
}

unfoldable pub show_detail : Data.Shown → Main → Main
unfolding enable_detail
show_detail shown m = enable_detail (some shown.trips.content.trains) (record m {
  detail_filter = some shown.filter;
  detail_trips = some shown.trips;
  detail = show_features shown.features m.detail;
})

-- With a filter and with trips.
unfoldable pub show_detail_data : External → DetailFilter → DetailTrips → Main → Option Main
show_detail_data ext filter trips m =
    Option.map (λ shown. show_detail shown m) (detail_features ext.deep_equal filter trips)

unfoldable pub show_trains : Bool → Main → Main
show_trains b m = record m {
  trains_enabled = b;
  base = set_base_enabled (not m.showing_detail_data && b) m.base;
  extra = set_extra_enabled (not m.showing_detail_data && b) m.extra;
  detail = Data.set_enabled (m.showing_detail_data && b) m.detail;
  render = Render.set_trains_enabled b m.render;
}

abbrev is_same_station : Station → Station → Bool
is_same_station a b =
    str_eq a.id b.id && (eq_ℤ a.position.lat b.position.lat && eq_ℤ a.position.lng b.position.lng)

abbrev pub is_same_walk : FilterWalk → FilterWalk → Bool
is_same_walk a b =
    is_same_station a.departure_station b.departure_station
    && is_same_station a.arrival_station b.arrival_station

pub record UpdatedWalks : Type 0 where
  pub walks : List FilterWalk
  pub updated : Bool

abbrev cons_walk : FilterWalk → UpdatedWalks → UpdatedWalks
cons_walk w rest = record rest { walks = w ∷ rest.walks }

-- The first walk of the filter that is the same gets the polyline and the coordinates, which
-- `prepareWalk` has put there.
unfoldable pub update_walk : FilterWalk → List FilterWalk → UpdatedWalks
update_walk walk [] = record { walks = []; updated = false }
update_walk walk (w ∷ ws) =
    let rest = update_walk walk ws in
    if is_same_walk w walk
    then record {
      walks = record w { polyline = walk.polyline; coordinates = walk.coordinates } ∷ ws;
      updated = true;
    }
    else cons_walk w rest

unfoldable pub update_walks : List FilterWalk → List FilterWalk → UpdatedWalks
update_walks [] ws = record { walks = ws; updated = false }
update_walks (walk ∷ walks) ws =
    let first = update_walk walk ws in
    let rest = update_walks walks first.walks in
    record rest { updated = first.updated || rest.updated }

-- After the loop, with the filter that has the new walks.
unfoldable pub refresh : External → Bool → Option DetailTrips → DetailFilter → Main → Option Main
refresh ext updated none filter m =
    if updated && m.showing_detail_data
    then some (enable_detail none (record m { detail_filter = some filter }))
    else some (record m { detail_filter = some filter })
refresh ext updated (some trips) filter m =
    if updated && m.showing_detail_data
    then show_detail_data ext filter trips m
    else some (record m { detail_filter = some filter })

unfoldable pub walks_for : External → List FilterWalk → Option DetailFilter → Main → Option Main
walks_for ext walks none m = some m
walks_for ext walks (some filter) m =
    let updated = update_walks walks filter.walks in
    refresh ext updated.updated m.detail_trips (record filter { walks = updated.walks }) m

unfoldable pub set_detail_walks : External → List FilterWalk → Main → Option Main
set_detail_walks ext walks m = walks_for ext walks m.detail_filter m

unfoldable pub target_fps : ℕ → Option ℕ
target_fps zoom =
    if leb zoom 10
    then some 2
    else if leb zoom 12
    then some 5
    else if leb zoom 14
    then some 10
    else if leb zoom 15
    then some 30
    else none

abbrev limited_fps : Bool → Option MapInfo → Option ℕ
limited_fps use_fps_limiter none = none
limited_fps use_fps_limiter (some map_info) =
    if use_fps_limiter then target_fps map_info.zoom else none

unfoldable pub setup_fps_limiter : Main → Main
setup_fps_limiter m = record m {
  render = Render.set_target_fps (limited_fps m.use_fps_limiter m.map_info) m.render;
}

unfoldable pub set_use_fps_limiter : Bool → Main → Main
set_use_fps_limiter enabled m = setup_fps_limiter (record m { use_fps_limiter = enabled })
