-- ===== src/Model/Position/Lines.antt =====
-- `getCurrLinePos` of ui/web/js/railviz/model.js: in either direction the lines of a polyline
-- follow one another without a gap.
use motis.Prelude.{
  ℕ, suc, ◌+◌, ◌-◌, ◌≤◌, ◌<◌, ◌≡◌, refl, some, length, get_elem?, take, arith, if◌then◌else◌,
  get_elem?-some, Bool-cases, inl, inr,
}
use mathlib.Core.Option
use native.Mathlib.Nat.{sub_self}
use motis.Prelude.Maths.{sum, sum-take-le, sum-take-suc, take_of_length}
use motis.Model.Geometry.Measure.{IsMeasured}
use motis.Model.Train.{PolylineRef}
use motis.Model.Position.{Span, get_curr_line_pos, line_at, forward, backward}

-- Where line `k` of a train's polyline begins, in the direction of travel.
pub line_start : PolylineRef → ℕ → ℕ
line_start p k =
    if p.fwd
    then p.offset + sum (take k p.polyline.line_lengths)
    else p.offset
      + (p.polyline.total_length - sum (take (p.polyline.line_count - k) p.polyline.line_lengths))

module _ (p : PolylineRef) (m : IsMeasured p.polyline) where
  open p use {polyline}

  sum-take-all :
      (k : ℕ) → k ≡ polyline.line_count → sum (take k polyline.line_lengths) ≡ polyline.total_length
  sum-take-all k e =
      let e' : k ≡ length polyline.line_lengths = omega (arith, m.lengths) in
      rw (e', take_of_length polyline.line_lengths, m.total)

  line_at-lt :
      (k : ℕ)
      → k < polyline.line_count
      → (len : ℕ) × (get_elem? polyline.line_lengths k ≡ some len)
        × (line_at p k ≡ some (record { offset = sum (take k polyline.line_lengths); len = len }))
  unfolding line_at Option.bind
  line_at-lt k h =
      let (len, e) = get_elem?-some polyline.line_lengths k (omega (arith, m.lengths)) in
      (len, e, rw (m.offsets k (omega arith), e))

  pub line_start-zero : line_start p 0 ≡ p.offset
  unfolding line_start
  line_start-zero = ground (arith, sum-take-all (polyline.line_count - 0) (omega arith))

  pub line_start-count : line_start p polyline.line_count ≡ p.offset + polyline.total_length
  unfolding line_start
  line_start-count = elim (Bool-cases p.fwd) [
    | inl e ↦ rw (e, sum-take-all polyline.line_count refl)
    | inr e ↦ rw (e, sub_self) (omega arith)
  ]

  -- The line at an index in range is where `line_start` says.
  pub get_curr_line_pos-lt :
      (k : ℕ)
      → k < polyline.line_count
      → (s : Span) × (get_curr_line_pos p k ≡ some s)
        × (s.offset ≡ line_start p k)
        × (s.offset + s.len ≡ line_start p (suc k))
  unfolding get_curr_line_pos line_start forward backward
  get_curr_line_pos-lt k h = elim (Bool-cases p.fwd) [
    | inl e ↦
        let (len, l, at_k) = line_at-lt k h in
        let next = sum-take-suc k polyline.line_lengths l in
        rw (e, at_k)
          (
            record { offset = p.offset + sum (take k polyline.line_lengths); len = len },
            refl,
            refl,
            omega arith,
          )
    | inr e ↦
        let idx : ℕ = polyline.line_count - 1 - k in
        let (len, l, at_idx) = line_at-lt idx (omega arith) in
        let here : polyline.line_count - k ≡ suc idx = omega arith in
        let next : polyline.line_count - suc k ≡ idx = omega arith in
        let split = sum-take-suc idx polyline.line_lengths l in
        let below = sum-take-le (suc idx) polyline.line_lengths in
        rw (e, at_idx, here, next)
          (
            backward p (record { offset = sum (take idx polyline.line_lengths); len = len }),
            refl,
            omega (arith, m.total),
            omega (arith, m.total),
          )
  ]

pub offset-le-line_start : (p : PolylineRef) (k : ℕ) → p.offset ≤ line_start p k
unfolding line_start
offset-le-line_start p k = ground arith
