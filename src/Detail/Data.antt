-- ===== src/Detail/Data.antt =====
-- `setData` of ui/web/js/railviz/path_detail.js. The objects that it changes in place, the polylines
-- of the trips and the walks of the filter, are results.
use motis.Prelude.{ℕ, Bool, true, false, List, [], ◌∷◌, ◌++◌, map, Option, none, some, String}
use mathlib.Core.Option
use motis.Prelude.Int.{ℤ}
use motis.Model.Geometry.{LatLng, Polyline}
use motis.Model.Train.{Station, TripId}
use motis.Model.Walks.{doubles_to_lng_lats}
use motis.Model.Preprocess.{PlacedStation, Content}
use motis.ConnectionManager.State.{ConnectionTrain}
use motis.Detail.Walks.{DetailTrain, load_adjusted_walk}
use motis.Detail.Styles.{Style, style_trains}

pub record FilterWalk : Type 0 where
  pub departure_station : Station
  pub arrival_station : Station
  pub polyline : Option (List ℤ)
  -- what `prepareWalk` computes
  pub coordinates : List (Option ℕ)

pub record DetailFilter : Type 0 where
  pub trains : List ConnectionTrain
  pub walks : List FilterWalk
  pub interchange_stations : List Station

-- The trips of a response after `preprocess`, with the styles of their polylines.
pub record DetailTrips : Type 0 where
  pub content : Content
  pub styles : List Style

pub data Feature : Type 0 where
  line : Bool → Option ℕ → List LatLng → Feature
  point : String → String → Bool → LatLng → Feature

-- The lines of the trips: a polyline without coordinates has none.
unfoldable pub trip_lines : List (Option Polyline) → List Style → List Feature
trip_lines [] styles = []
trip_lines (p ∷ ps) [] = []
trip_lines (none ∷ ps) (s ∷ styles) = trip_lines ps styles
trip_lines (some p ∷ ps) (s ∷ styles) =
    line s.highlight s.clasz p.coordinates ∷ trip_lines ps styles

-- A walk has no class. Without coordinates it has no line.
unfoldable pub walk_line : List LatLng → List Feature
walk_line [] = []
walk_line (c ∷ cs) = line true none (c ∷ cs) ∷ []

pub record Walked : Type 0 where
  pub walks : List FilterWalk
  pub features : List Feature

abbrev add_walk : FilterWalk → List Feature → Walked → Walked
add_walk w fs rest = record { walks = w ∷ rest.walks; features = fs ++ rest.features }

abbrev adjusted : FilterWalk → List ℤ → FilterWalk
adjusted w wp = record w { polyline = some wp }

unfoldable pub walk_lines : List DetailTrain → List FilterWalk → Option Walked
walk_lines trains [] = some (record { walks = []; features = [] })
walk_lines trains (w ∷ ws) =
    let rest = walk_lines trains ws in
    elim w.polyline [
      | none ↦ Option.map (add_walk w []) rest
      | some polyline ↦
          Option.bind
            (load_adjusted_walk w.departure_station.id w.arrival_station.id trains polyline)
            λ wp. Option.map (add_walk (adjusted w wp) (walk_line (doubles_to_lng_lats wp))) rest
    ]

abbrev trip_station : PlacedStation → Feature
trip_station s = point s.station.id s.station.name false s.raw_pos

abbrev interchange : Station → Feature
interchange s = point s.id s.name true s.position

pub record Shown : Type 0 where
  pub features : List Feature
  pub trips : DetailTrips
  pub filter : DetailFilter

unfoldable pub detail_features :
    (TripId → TripId → Bool) → DetailFilter → DetailTrips → Option Shown
detail_features deep_equal filter trips =
    let styled = style_trains deep_equal filter.trains trips.content.trains trips.styles in
    Option.map
      (λ walked. record {
        features =
            trip_lines trips.content.polylines styled.styles
            ++ map trip_station trips.content.stations
            ++ walked.features
            ++ map interchange filter.interchange_stations;
        trips = record trips { styles = styled.styles };
        filter = record filter { walks = walked.walks };
      })
      (walk_lines styled.trains filter.walks)

pub record Source : Type 0 where
  pub features : List Feature
  pub visible : Bool

pub record Detail : Type 0 where
  pub map : Option Source
  pub features : Option (List Feature)
  pub enabled : Bool

abbrev or_empty : Option (List Feature) → List Feature
or_empty none = []
or_empty (some fs) = fs

unfoldable pub show_features : List Feature → Detail → Detail
show_features fs d = record d {
  features = some fs;
  map = Option.map {A = Source} (λ m. record m { features = fs }) d.map;
}

unfoldable pub set_enabled : Bool → Detail → Detail
set_enabled b d = record d {
  map = Option.map {A = Source} (λ m. record m { visible = b }) d.map;
  enabled = b;
}

unfoldable pub init : Detail → Detail
init d =
    set_enabled d.enabled
      (record d { map = some (record { features = or_empty d.features; visible = true }) })
