-- ===== src/Model/Position.antt =====
-- The position of a train at a time: `updatePosition` and what it calls, in class `Train` of
-- ui/web/js/railviz/model.js. Positions along a route are exact fractions.
pub mod Seek
pub mod Lines
pub mod Coverage
pub mod Update
pub mod Run
pub mod Backwards
pub mod Display
use motis.Prelude.{
  ℕ, zero, suc, ◌+◌, ◌-◌, ◌*◌, ◌≡◌, Bool, true, false, ◌&&◌, ◌||◌, List, [], ◌∷◌, Option, none,
  some, length, get_elem?, drop, ltb, leb, ◌==◌, if◌then◌else◌, min, not,
}
use mathlib.Core.Option
use motis.Prelude.Int.{ℤ, pos, negsuc, sub_ℕ}
use motis.Model.Geometry.{Point, Polyline}
use motis.Model.Train.{PolylineRef, Progress, ratio, infinite, Train, or_zero, is_bare}

-- `pos` of the source: a length times the share of the journey's time that has passed. A journey
-- that takes no time gives 0 / 0, and a length that is NaN gives NaN.
pub data Position : Type 0 where
  not_a_number : Position
  at : ℕ → ℕ → Position

unfoldable pub position : ℕ → Train → Position
position time t =
    if t.unmeasured || t.a_time - t.d_time == 0
    then not_a_number
    else at ((time - t.d_time) * t.total_length) (t.a_time - t.d_time)

-- `pos >= offset && pos <= offset + length`
unfoldable pub is_within : Position → ℕ → ℕ → Bool
is_within not_a_number offset len = false
is_within (at num den) offset len = leb (offset * den) num && leb num ((offset + len) * den)

pub record Span : Type 0 where
  pub offset : ℕ
  pub len : ℕ

module _ (p : PolylineRef) where
  open p use {polyline}

  -- The offset and the length of a line within the polyline; `none` where an index is out of range.
  line_at : ℕ → Option Span
  line_at idx = Option.bind (get_elem? polyline.line_offsets idx) λ offset.
      Option.map (λ len. record { offset = offset; len = len })
        (get_elem? polyline.line_lengths idx)

  forward : Span → Span
  forward s = record s { offset = p.offset + s.offset }

  backward : Span → Span
  backward s = record s { offset = p.offset + polyline.total_length - (s.offset + s.len) }

  -- At an undefined length or offset the source computes with undefined, and no comparison holds.
  -- (A polyline of one point has no line; the source's index −1 is 0 here, at which there is no
  -- line either.)
  unfoldable pub get_curr_line_pos : ℕ → Option Span
  unfolding line_at forward backward
  get_curr_line_pos line =
      if p.fwd
      then Option.map forward (line_at line)
      else Option.map backward (line_at (polyline.line_count - 1 - line))

abbrev pub is_on : Position → Option Span → Bool
is_on x none = false
is_on x (some s) = is_within x s.offset s.len

-- `(pos - lOffset) / lLength || 0`
unfoldable pub progress : Position → Option Span → Progress
progress x none = ratio (pos 0) 1
progress not_a_number (some s) = ratio (pos 0) 1
progress (at num den) (some s) =
    if s.len == 0
    then if num == s.offset * den then ratio (pos 0) 1 else infinite (leb (s.offset * den) num)
    else ratio (sub_ℕ num (s.offset * den)) (s.len * den)

-- The loops `for (; i < n; ++i) if (…) break;`, over the rounds that are left.
unfoldable pub seek : ℕ → ℕ → (ℕ → Bool) → ℕ
seek zero i hit = i
seek (suc rounds) i hit = if hit i then i else seek rounds (i + 1) hit

abbrev ref_has : Position → Option PolylineRef → Bool
ref_has x none = false
ref_has x (some p) = is_within x p.offset p.polyline.total_length

abbrev pub polyline_has : Position → List PolylineRef → ℕ → Bool
polyline_has x polylines i = ref_has x (get_elem? polylines i)

abbrev pub line_has : Position → PolylineRef → ℕ → Bool
line_has x p i = is_on x (get_curr_line_pos p i)

unfoldable pub update_curr_polyline : Position → Train → Train
update_curr_polyline x t =
    let old = or_zero t.curr_polyline in
    let n = length t.polylines in
    let found = seek (n - old) old (polyline_has x t.polylines) in
    record t {
      curr_polyline = some (min found (n - 1));
      curr_line = if ltb found n && not (found == old) then some 0 else t.curr_line;
    }

unfoldable pub update_curr_line : Position → PolylineRef → Train → Train
update_curr_line x p t =
    let old = or_zero t.curr_line in
    let n = p.polyline.line_count in
    record t { curr_line = some (min (seek (n - old) old (line_has x p)) (n - 1)) }

unfoldable pub set_progress : Position → PolylineRef → Train → Train
set_progress x p t = record t {
  curr_progress = some (progress x (get_curr_line_pos p (or_zero t.curr_line)));
}

abbrev pub curr_ref : Train → Option PolylineRef
curr_ref t = get_elem? t.polylines (or_zero t.curr_polyline)

unfoldable pub hide : Train → Train
hide t = record t { curr_polyline = none; curr_line = none; curr_progress = none }

-- On a polyline `{}`, `lineCount` is undefined and the search for a line makes no round; then
-- `getCurrLinePos` raises a TypeError, which is `none`.
unfoldable pub put_on_line : Position → PolylineRef → Train → Option (Train × Bool)
put_on_line x p t =
    if is_bare p then none else some (set_progress x p (update_curr_line x p t), true)

-- From `updateCurrPolyline` to the end. `none` is a TypeError, also that of a train without
-- polylines.
unfoldable pub locate : Position → Train → Option (Train × Bool)
locate x t = let t' = update_curr_polyline x t in Option.bind (curr_ref t') λ p. put_on_line x p t'

-- The branch of a train that is visible already: on the same line only the progress changes.
unfoldable pub keep_line : Position → Train → Option PolylineRef → Option (Train × Bool)
keep_line x t none = none
keep_line x t (some p) =
    if is_bare p
    then none
    else if line_has x p (or_zero t.curr_line)
    then some (set_progress x p t, false)
    else locate x t

abbrev pub is_some {ℓ} : {A : Type ℓ} → Option A → Bool
is_some none = false
is_some (some a) = true

-- The result says whether the train's line has changed.
unfoldable pub update_position : ℕ → Train → Option (Train × Bool)
update_position time t =
    if ltb time t.d_time || ltb t.a_time time
    then some (hide t, is_some t.curr_polyline)
    else let x = position time t in
      if is_some t.curr_polyline then keep_line x t (curr_ref t) else locate x t

-- Outer `none`: a TypeError. Inner `none`: the train is not visible. On a polyline of one point the
-- source's line is −1, and neither −1 nor, backwards, 1 is the index of a point.
unfoldable pub get_mercator_line : Train → Option (Option (Point × Point))
get_mercator_line t = elim t.curr_polyline [
  | none ↦ some none
  | some i ↦ Option.bind (get_elem? t.polylines i) λ p.
      let mc = p.polyline.mercator_coordinates in
      let line = or_zero t.curr_line in
      let start = if p.fwd then line else p.polyline.line_count - line in
      let end = if p.fwd then line + 1 else p.polyline.line_count - line - 1 in
      if p.polyline.line_count == 0
      then none
      else Option.bind (get_elem? mc start) λ a. Option.map (λ b. some (a, b)) (get_elem? mc end)
]
