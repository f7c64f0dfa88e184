-- ===== src/Model/Preprocess.antt =====
-- `preprocess` and `preprocessStation` of ui/web/js/railviz/model.js.
pub mod Order
pub mod Trains
use motis.Prelude.{
  ℕ, zero, suc, ◌+◌, ◌-◌, ◌≡◌, Bool, true, false, List, [], ◌∷◌, map, Option, none, some, String,
  not, length, keep, ◌==◌, if◌then◌else◌,
}
use mathlib.Core.Option
use motis.Prelude.Int.{ℤ, pos, ◌-ℤ◌, leb_ℤ}
use motis.Prelude.Sorting.{sort_by}
use motis.Model.Geometry.{LatLng, Point, Polyline, preprocess_polyline}
use motis.Model.Train.{Station, TrainData, Train, new_train, or_zero}

-- The content of a `RailVizTrainsResponse`, as the server sends it.
pub record Response : Type 0 where
  pub stations : List Station
  pub trains : List TrainData
  pub polylines : List String
  pub extras : List ℕ

pub record PlacedStation : Type 0 where
  pub station : Station
  pub raw_pos : LatLng
  pub mercator_pos : Point

-- The same object after `preprocess`.
pub record Content : Type 0 where
  pub stations : List PlacedStation
  pub trains : List Train
  pub polylines : List (Option Polyline)
  pub extras : List ℕ

module _ (from_lng_lat : ℤ → ℤ → Point) where
  unfoldable pub preprocess_station : Station → PlacedStation
  preprocess_station s = record {
    station = s;
    raw_pos = s.position;
    mercator_pos = from_lng_lat s.position.lng s.position.lat;
  }

abbrev pub has_polylines : Train → Bool
has_polylines t = not (length t.polylines == 0)

-- The comparator of the sort: by class, and within a class by a field that is zero if missing.
unfoldable pub compare_trains : Train → Train → ℤ
compare_trains lhs rhs =
    if not (or_zero rhs.clasz == or_zero lhs.clasz)
    then pos (or_zero rhs.clasz) -ℤ pos (or_zero lhs.clasz)
    else pos (or_zero rhs.route_distance_) -ℤ pos (or_zero lhs.route_distance_)

unfoldable pub train_le : Train → Train → Bool
unfolding compare_trains
train_le lhs rhs = leb_ℤ (compare_trains lhs rhs) (pos 0)

-- `data.trains.map((t) => new Train(t, data))`; a TypeError in one ends the call.
unfoldable pub new_trains :
    List Station → List (Option Polyline) → List TrainData → Option (List Train)
new_trains stations polylines [] = some []
new_trains stations polylines (t ∷ ts) =
    Option.bind (new_train stations polylines t)
      λ train. Option.map (λ trains. train ∷ trains) (new_trains stations polylines ts)

module _ (decode : String → List LatLng) (from_lng_lat : ℤ → ℤ → Point) where
  unfoldable pub preprocess : Response → Option Content
  preprocess response =
      let polylines = map (preprocess_polyline decode from_lng_lat) response.polylines in
      Option.map
        (λ trains. record {
          stations = map (preprocess_station from_lng_lat) response.stations;
          trains = sort_by train_le (keep has_polylines trains);
          polylines = polylines;
          extras = response.extras;
        })
        (new_trains response.stations polylines response.trains)
