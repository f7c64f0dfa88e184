-- ===== src/Model/Geometry.antt =====
-- `preprocessPolyline` and `doublesToLngLats` of ui/web/js/railviz/model.js. Mercator coordinates and lengths are scaled integers; `decode` of polyline.js and
-- `MercatorCoordinate.fromLngLat` of mapbox-gl are parameters.
pub mod Measure
use motis.Prelude.{ℕ, ◌+◌, ◌-◌, ◌*◌, ◌≡◌, List, [], ◌∷◌, map, Option, none, some, String, length}
use motis.Prelude.Int.{ℤ}
use motis.Prelude.Maths.{sqrt}

pub record LatLng : Type 0 where
  pub lat : ℤ
  pub lng : ℤ

pub record Point : Type 0 where
  pub x : ℕ
  pub y : ℕ

pub record Polyline : Type 0 where
  pub coordinates : List LatLng
  pub mercator_coordinates : List Point
  pub line_count : ℕ
  pub line_lengths : List ℕ
  pub line_offsets : List ℕ
  pub total_length : ℕ

-- The square of a difference, which has no sign.
abbrev square_dist : ℕ → ℕ → ℕ
square_dist a b = (a - b + (b - a)) * (a - b + (b - a))

unfoldable pub line_length : Point → Point → ℕ
line_length a b = sqrt (square_dist a.x b.x + square_dist a.y b.y)

pub record Lines : Type 0 where
  pub lengths : List ℕ
  pub offsets : List ℕ
  pub total : ℕ

-- The loop over the lines of a polyline, from the running `offset`; the last offset is the end.
unfoldable pub measure_lines : ℕ → List Point → Lines
measure_lines offset [] = record { lengths = []; offsets = offset ∷ []; total = offset }
measure_lines offset (a ∷ []) = record { lengths = []; offsets = offset ∷ []; total = offset }
measure_lines offset (a ∷ b ∷ points) =
    let rest = measure_lines (offset + line_length a b) (b ∷ points) in
    record {
      lengths = line_length a b ∷ rest.lengths;
      offsets = offset ∷ rest.offsets;
      total = rest.total;
    }

-- The object for coordinates that are not empty.
unfoldable pub measure_polyline : (ℤ → ℤ → Point) → LatLng → List LatLng → Polyline
measure_polyline from_lng_lat first others =
    let mc = map (λ ll. from_lng_lat ll.lng ll.lat) (first ∷ others) in
    let lines = measure_lines 0 mc in
    record {
      coordinates = first ∷ others;
      mercator_coordinates = mc;
      line_count = length mc - 1;
      line_lengths = lines.lengths;
      line_offsets = lines.offsets;
      total_length = lines.total;
    }

abbrev pub from_coordinates : (ℤ → ℤ → Point) → List LatLng → Option Polyline
from_coordinates from_lng_lat [] = none
from_coordinates from_lng_lat (first ∷ others) = some (measure_polyline from_lng_lat first others)

-- `none` stands for the object `{}`, without any of the fields.
unfoldable pub preprocess_polyline :
    (String → List LatLng) → (ℤ → ℤ → Point) → String → Option Polyline
preprocess_polyline decode from_lng_lat str = from_coordinates from_lng_lat (decode str)
