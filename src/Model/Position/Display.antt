-- ===== src/Model/Position/Display.antt =====
-- What `updatePosition` of ui/web/js/railviz/model.js shows outside of a journey's time, and the
-- progress that it stores within it.
use motis.Prelude.{
  ℕ, false, ◌+◌, ◌-◌, ◌<◌, ◌≡◌, none, some, get_elem?, arith, ◌==◌, ◌⊎◌, get_elem?-some,
  if◌then◌else◌,
}
use motis.Model.Train.{Train, PolylineRef}
use motis.Model.Position.{Position, is_some, hide, update_position, get_mercator_line}
use motis.Model.Position.Coverage.{IsOn}
use mathlib.Core.Option
use motis.Model.Geometry.{Point}
use motis.Model.Geometry.Measure.{IsMeasured}
use motis.Model.Train.Layout.{IsLaidOut, polyline_start-get}

-- Before its departure and after its arrival a train is taken off the map, nothing is left of its
-- last position, no line is drawn, and the update reports a change exactly when it was on the map.
pub update_position-outside :
    (time : ℕ) (t : Train)
    → (time < t.d_time) ⊎ (t.a_time < time)
    → (update_position time t ≡ some (hide t, is_some t.curr_polyline))
      × (get_mercator_line (hide t) ≡ some none)
unfolding update_position hide get_mercator_line
update_position-outside time t out = ground arith

ends-of-line :
    (p : PolylineRef) (line : ℕ)
    → IsMeasured p.polyline
    → line < p.polyline.line_count
    → let mc = p.polyline.mercator_coordinates in
      let n = p.polyline.line_count in
      (a : Point) × (b : Point) × (get_elem? mc (if p.fwd then line else n - line) ≡ some a)
      × (get_elem? mc (if p.fwd then line + 1 else n - line - 1) ≡ some b)
ends-of-line p line m h =
    let mc = p.polyline.mercator_coordinates in
    let n = p.polyline.line_count in
    let (a, p') = get_elem?-some mc (if p.fwd then line else n - line) (ground (arith, m.points)) in
    let (b, q') =
      get_elem?-some mc (if p.fwd then line + 1 else n - line - 1) (ground (arith, m.points)) in
    (a, b, p', q')

-- A train on a line has a line to draw.
pub IsOn-get_mercator_line :
    {x : Position} {t : Train}
    → IsLaidOut t
    → IsOn x t
    → (a : Point) × (b : Point) × (get_mercator_line t ≡ some (some (a, b)))
unfolding get_mercator_line Option.bind
IsOn-get_mercator_line {t = t} l on =
    let (_, _, u) =
      polyline_start-get 0 t.polylines t.total_length on.index l.contiguous on.on_ref in
    let (a, b, from, to) = ends-of-line on.ref on.line u.measured on.line-lt in
    let lines : (on.ref.polyline.line_count == 0) ≡ false = ground (arith, on.line-lt) in
    (a, b, rw (on.on_index, on.on_ref, on.on_line, lines, from, to))
