-- ===== src/Model/Walks.antt =====
-- `doublesToLngLats`, `convertPolyline` and `prepareWalk` of ui/web/js/railviz/model.js.
pub mod Repeats
use motis.Prelude.{
  ℕ, zero, suc, ◌≡◌, Bool, true, false, ◌&&◌, ◌||◌, not, List, [], ◌∷◌, map, Option, none, some,
  String, ◌==◌, if◌then◌else◌,
}
use motis.Prelude.Int.{ℤ, eq_ℤ}
use motis.Model.Geometry.{LatLng, Point}
use motis.Model.Train.{Station}
use motis.Model.Preprocess.{PlacedStation, preprocess_station}

abbrev pub lat_lng : ℤ → ℤ → LatLng
lat_lng lat lng = record { lat = lat; lng = lng }

abbrev pub same_lng_lat : LatLng → LatLng → Bool
same_lng_lat a b = eq_ℤ a.lng b.lng && eq_ℤ a.lat b.lat

abbrev pub same_point : Point → Point → Bool
same_point a b = a.x == b.x && a.y == b.y

-- `converted.length == 0 || ll != converted[converted.length - 1]`
abbrev pub is_new {ℓ} : {A : Type ℓ} → (A → A → Bool) → Option A → A → Bool
is_new same none a = true
is_new same (some last) a = not (same last a)

-- The loop of `doublesToLngLats` over latitudes and longitudes in turn, from the last pair that was
-- pushed. A last number without a partner is passed over.
unfoldable pub push_lng_lats : Option LatLng → List ℤ → List LatLng
push_lng_lats last [] = []
push_lng_lats last (lat ∷ []) = []
push_lng_lats last (lat ∷ lng ∷ src) =
    let ll = lat_lng lat lng in
    let rest = push_lng_lats (some ll) src in
    let skipped = push_lng_lats last src in
    if is_new same_lng_lat last ll then ll ∷ rest else skipped

unfoldable pub doubles_to_lng_lats : List ℤ → List LatLng
doubles_to_lng_lats src = push_lng_lats none src

module _ (from_lng_lat : ℤ → ℤ → Point) where
  -- The loop of `convertPolyline`: the same, with Mercator coordinates, and flat.
  unfoldable pub push_points : Option Point → List ℤ → List ℕ
  push_points last [] = []
  push_points last (lat ∷ []) = []
  push_points last (lat ∷ lng ∷ coords) =
      let wc = from_lng_lat lng lat in
      let rest = push_points (some wc) coords in
      let skipped = push_points last coords in
      if is_new same_point last wc then wc.x ∷ wc.y ∷ rest else skipped

  unfoldable pub convert_polyline : List ℤ → List ℕ
  convert_polyline coords = push_points none coords

pub record WalkData : Type 0 where
  pub departure_station : Station
  pub arrival_station : Station
  pub polyline : Option (List ℤ)

pub record PreparedWalk : Type 0 where
  pub departure_station : PlacedStation
  pub arrival_station : PlacedStation
  pub polyline : Option (List ℤ)
  pub from_station_id : String
  pub to_station_id : String
  -- `none` is undefined.
  pub coordinates : List (Option ℕ)

-- Without a polyline the source reads `x` and `y` of positions that have `lat` and `lng`.
walk_coordinates : (ℤ → ℤ → Point) → Option (List ℤ) → List (Option ℕ)
walk_coordinates from_lng_lat none = none ∷ none ∷ none ∷ none ∷ []
walk_coordinates from_lng_lat (some coords) = map some (convert_polyline from_lng_lat coords)

unfoldable pub prepare_walk : (ℤ → ℤ → Point) → WalkData → PreparedWalk
unfolding walk_coordinates
prepare_walk from_lng_lat walk = record {
  departure_station = preprocess_station from_lng_lat walk.departure_station;
  arrival_station = preprocess_station from_lng_lat walk.arrival_station;
  polyline = walk.polyline;
  from_station_id = walk.departure_station.id;
  to_station_id = walk.arrival_station.id;
  coordinates = walk_coordinates from_lng_lat walk.polyline;
}
