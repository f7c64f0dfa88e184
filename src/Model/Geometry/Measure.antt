-- ===== src/Model/Geometry/Measure.antt =====
-- What `preprocessPolyline` of ui/web/js/railviz/model.js stores about the lines of a polyline.
use motis.Prelude.{
  ℕ, zero, suc, ◌+◌, ◌-◌, ◌≤◌, ◌≡◌, List, [], ◌∷◌, map, some, String, length, get_elem?, take,
  arith, subst,
}
use motis.Prelude.Int.{ℤ}
use motis.Prelude.Maths.{sum}
use motis.Model.Geometry.{
  LatLng, Point, Polyline, line_length, measure_lines, measure_polyline, from_coordinates,
  preprocess_polyline,
}
use native.Mathlib.Nat.{zero-add}

length-measure_lines :
    (o : ℕ) (ps : List Point) → length (measure_lines o ps).lengths ≡ length ps - 1
unfolding measure_lines
length-measure_lines o [] = omega arith
length-measure_lines o (a ∷ []) = omega arith
length-measure_lines o (a ∷ b ∷ ps) =
    omega (arith, length-measure_lines (o + line_length a b) (b ∷ ps))

total-measure_lines :
    (o : ℕ) (ps : List Point) → (measure_lines o ps).total ≡ o + sum (measure_lines o ps).lengths
unfolding measure_lines
total-measure_lines o [] = omega arith
total-measure_lines o (a ∷ []) = omega arith
total-measure_lines o (a ∷ b ∷ ps) =
    omega (arith, total-measure_lines (o + line_length a b) (b ∷ ps))

offsets-measure_lines :
    (o : ℕ) (ps : List Point) (k : ℕ)
    → k ≤ length (measure_lines o ps).lengths
    → get_elem? (measure_lines o ps).offsets k
      ≡ some (o + sum (take k (measure_lines o ps).lengths))
unfolding measure_lines
offsets-measure_lines o [] zero h = ground arith
offsets-measure_lines o [] (suc k) h = absurd (omega arith)
offsets-measure_lines o (a ∷ []) zero h = ground arith
offsets-measure_lines o (a ∷ []) (suc k) h = absurd (omega arith)
offsets-measure_lines o (a ∷ b ∷ ps) zero h = ground arith
offsets-measure_lines o (a ∷ b ∷ ps) (suc k) h =
    ground (arith, offsets-measure_lines (o + line_length a b) (b ∷ ps) k)

lengths-measure_lines :
    (o : ℕ) (ps : List Point) (k : ℕ) (a b : Point)
    → get_elem? ps k ≡ some a
    → get_elem? ps (suc k) ≡ some b
    → get_elem? (measure_lines o ps).lengths k ≡ some (line_length a b)
unfolding measure_lines
lengths-measure_lines o [] k a b p q = cc
lengths-measure_lines o (c ∷ []) k a b p q = cc
lengths-measure_lines o (c ∷ d ∷ ps) zero a b p q = ground arith
lengths-measure_lines o (c ∷ d ∷ ps) (suc k) a b p q =
    lengths-measure_lines (o + line_length c d) (d ∷ ps) k a b p q

-- The stored lengths and offsets are those of the lines between the points.
pub record IsMeasured (p : Polyline) : Type 0 where
  pub points : length p.mercator_coordinates ≡ p.line_count + 1
  pub lengths : length p.line_lengths ≡ p.line_count
  pub distances :
      (k : ℕ) (a b : Point)
      → get_elem? p.mercator_coordinates k ≡ some a
      → get_elem? p.mercator_coordinates (suc k) ≡ some b
      → get_elem? p.line_lengths k ≡ some (line_length a b)
  pub offsets :
      (k : ℕ) → k ≤ p.line_count → get_elem? p.line_offsets k ≡ some (sum (take k p.line_lengths))
  pub total : p.total_length ≡ sum p.line_lengths

measure_polyline-IsMeasured :
    (from_lng_lat : ℤ → ℤ → Point) (first : LatLng) (others : List LatLng)
    → IsMeasured (measure_polyline from_lng_lat first others)
unfolding measure_polyline
measure_polyline-IsMeasured from_lng_lat first others =
    let mc = map {B = Point} (λ ll. from_lng_lat ll.lng ll.lat) (first ∷ others) in
    record {
      points = omega arith;
      lengths = length-measure_lines 0 mc;
      distances = lengths-measure_lines 0 mc;
      offsets = λ k h.
          rw zero-add at (offsets-measure_lines 0 mc k (omega (arith, length-measure_lines 0 mc)));
      total = rw zero-add at (total-measure_lines 0 mc);
    }

from_coordinates-IsMeasured :
    (from_lng_lat : ℤ → ℤ → Point) (coordinates : List LatLng) {p : Polyline}
    → from_coordinates from_lng_lat coordinates ≡ some p
    → IsMeasured p
from_coordinates-IsMeasured f [] h = cc
from_coordinates-IsMeasured f (first ∷ others) {p} h =
    let e : measure_polyline f first others ≡ p = cc in
    subst IsMeasured e (measure_polyline-IsMeasured f first others)

-- Whatever text is decoded, the polyline that `preprocessPolyline` makes of it, if it makes one,
-- has a length for each pair of neighbouring points, the rounded distance of the two, an offset for
-- each line and the end, the sum of the lengths before it, and the sum of all as its total length.
pub preprocess_polyline-IsMeasured :
    (decode : String → List LatLng) (from_lng_lat : ℤ → ℤ → Point) (str : String) {p : Polyline}
    → preprocess_polyline decode from_lng_lat str ≡ some p
    → IsMeasured p
unfolding preprocess_polyline
preprocess_polyline-IsMeasured decode f str h = from_coordinates-IsMeasured f (decode str) h
