-- ===== src/Model/Position/Coverage.antt =====
-- `updatePosition` of ui/web/js/railviz/model.js puts a train on the line that holds its position.
use motis.Prelude.{
  ℕ, suc, ◌+◌, ◌-◌, ◌*◌, ◌≤◌, ◌<◌, ◌≡◌, refl, min, true, false, some, length, get_elem?, arith,
  ◌==◌, ==_iff, ap, if◌then◌else◌, get_elem?-some, Bool-cases, inl, inr,
}
use mathlib.Core.Option
use motis.Model.Train.{PolylineRef, Train, or_zero, is_bare}
use motis.Model.Train.Layout.{
  IsUsable, IsLaidOut, polyline_start, polyline_start-length, polyline_start-get,
}
use motis.Model.Position.{
  Position, at, Span, is_within, get_curr_line_pos, seek, polyline_has, line_has,
  update_curr_polyline, update_curr_line, set_progress, locate, put_on_line, progress,
}
use motis.Model.Position.Seek.{seek-hits}
use motis.Model.Position.Lines.{line_start, line_start-zero, line_start-count, get_curr_line_pos-lt}

-- The train stands on a line of one of its polylines, and the line holds the position.
pub record IsOn (x : Position) (t : Train) : Type 0 where
  pub index : ℕ
  pub ref : PolylineRef
  pub line : ℕ
  pub span : Span
  pub on_index : t.curr_polyline ≡ some index
  pub on_ref : get_elem? t.polylines index ≡ some ref
  pub on_line : t.curr_line ≡ some line
  pub on_span : get_curr_line_pos ref line ≡ some span
  pub line-lt : line < ref.polyline.line_count
  pub within : is_within x span.offset span.len ≡ true
  pub on_progress : t.curr_progress ≡ some (progress x (some span))

-- `t'` is the train `t` on the line that holds the position.
pub record Moved (x : Position) (t t' : Train) : Type 0 where
  pub info : t'.info ≡ t.info
  pub polylines : t'.polylines ≡ t.polylines
  pub total_length : t'.total_length ≡ t.total_length
  pub unmeasured : t'.unmeasured ≡ t.unmeasured
  pub on : IsOn x t'

-- The line at which a search starts begins no later than the position `num / den`.
pub record IsBehind (num den : ℕ) (t : Train) : Type 0 where
  pub polyline-lt : or_zero t.curr_polyline < length t.polylines
  pub polyline-le : polyline_start 0 t.polylines (or_zero t.curr_polyline) * den ≤ num
  pub line-le :
      (ref : PolylineRef)
      → get_elem? t.polylines (or_zero t.curr_polyline) ≡ some ref
      → (or_zero t.curr_line < ref.polyline.line_count)
        × (line_start ref (or_zero t.curr_line) * den ≤ num)

is_within-between :
    (num den offset len : ℕ) {lo hi : ℕ}
    → offset ≡ lo
    → offset + len ≡ hi
    → lo * den ≤ num
    → num ≤ hi * den
    → is_within (at num den) offset len ≡ true
unfolding is_within
is_within-between num den offset len o n a b = rw (n, o) (ground arith)

module _ (t : Train) (l : IsLaidOut t) (num den : ℕ) (hi : num ≤ t.total_length * den) where
  polyline_has-get :
      (k : ℕ)
      → k < length t.polylines
      → polyline_start 0 t.polylines k * den ≤ num
      → num ≤ polyline_start 0 t.polylines (suc k) * den
      → polyline_has (at num den) t.polylines k ≡ true
  polyline_has-get k h a b =
      let (p, e) = get_elem?-some t.polylines k h in
      let (s, n, _) = polyline_start-get 0 t.polylines t.total_length k l.contiguous e in
      rw e (is_within-between num den _ _ s n a b)

  found_polyline :
      IsBehind num den t
      → let old = or_zero t.curr_polyline in
        let n = length t.polylines in
        let found = seek (n - old) old (polyline_has (at num den) t.polylines) in
        (polyline_has (at num den) t.polylines found ≡ true) × (old ≤ found) × (found < n)
  found_polyline b =
      seek-hits (λ k. polyline_start 0 t.polylines k * den) num _ (length t.polylines) _ _
        (omega (arith, b.polyline-lt)) (λ k _ h. polyline_has-get k h)
        (omega (arith, b.polyline-lt)) b.polyline-le
        (rw (polyline_start-length 0 t.polylines t.total_length l.contiguous) hi)

module _ (p : PolylineRef) (u : IsUsable p.polyline) (num den : ℕ) where
  line_has-lt :
      (k : ℕ)
      → k < p.polyline.line_count
      → line_start p k * den ≤ num
      → num ≤ line_start p (suc k) * den
      → line_has (at num den) p k ≡ true
  line_has-lt k h a b =
      let (s, e, o, n) = get_curr_line_pos-lt p u.measured k h in
      rw e (is_within-between num den _ _ o n a b)

  found_line :
      (old : ℕ)
      → old < p.polyline.line_count
      → line_start p old * den ≤ num
      → num ≤ (p.offset + p.polyline.total_length) * den
      → let n = p.polyline.line_count in
        let found = seek (n - old) old (line_has (at num den) p) in
        (line_has (at num den) p found ≡ true) × (old ≤ found) × (found < n)
  found_line old h lo hi =
      seek-hits (λ k. line_start p k * den) num _ p.polyline.line_count _ _ (omega arith)
        (λ k _ k-lt. line_has-lt k k-lt) (omega arith) lo (rw (line_start-count p u.measured) hi)

pub has_points : (p : PolylineRef) → IsUsable p.polyline → is_bare p ≡ false
has_points p u = ground (arith, u.measured.points)

min-pred : {i n : ℕ} → i < n → min i (n - 1) ≡ i
min-pred h = omega arith

pub within-bounds :
    (num den offset len : ℕ)
    → is_within (at num den) offset len ≡ true
    → (offset * den ≤ num) × (num ≤ (offset + len) * den)
unfolding is_within
within-bounds num den offset len h = ground arith

pub line_has-span :
    (x : Position) (p : PolylineRef) (k : ℕ)
    → line_has x p k ≡ true
    → (s : Span) × (get_curr_line_pos p k ≡ some s) × (is_within x s.offset s.len ≡ true)
line_has-span x p k h = ground arith

module _ (t : Train) (l : IsLaidOut t) (num den : ℕ) (hi : num ≤ t.total_length * den)
    (b : IsBehind num den t) where
  abbrev found_index : ℕ
  found_index =
      seek (length t.polylines - or_zero t.curr_polyline) (or_zero t.curr_polyline)
        (polyline_has (at num den) t.polylines)

  abbrev on_polyline : Train
  on_polyline = record t {
    curr_polyline = some found_index;
    curr_line = if found_index == or_zero t.curr_polyline then t.curr_line else some 0;
  }

  update_curr_polyline-found : update_curr_polyline (at num den) t ≡ on_polyline
  unfolding update_curr_polyline
  update_curr_polyline-found = ground (arith, found_polyline t l num den hi b)

  start_line :
      (p : PolylineRef)
      → get_elem? t.polylines found_index ≡ some p
      → IsUsable p.polyline
      → p.offset * den ≤ num
      → (or_zero on_polyline.curr_line < p.polyline.line_count)
        × (line_start p (or_zero on_polyline.curr_line) * den ≤ num)
  start_line p e u lo = elim (Bool-cases (found_index == or_zero t.curr_polyline)) [
    | inl same ↦
        let old = (==_iff found_index (or_zero t.curr_polyline)).0 same in
        rw same (b.line-le p (rw old at e))
    | inr other ↦ rw other (u.has_line, rw (line_start-zero p u.measured) lo)
  ]

  found_ref : (p : PolylineRef) × (get_elem? t.polylines found_index ≡ some p)
  found_ref = get_elem?-some t.polylines found_index (found_polyline t l num den hi b).2

  abbrev on_the_line : PolylineRef → Train
  on_the_line p = set_progress (at num den) p (update_curr_line (at num den) p on_polyline)

  on_the_line-IsOn :
      (p : PolylineRef)
      → get_elem? t.polylines found_index ≡ some p
      → IsOn (at num den) (on_the_line p)
  unfolding set_progress update_curr_line
  on_the_line-IsOn p e =
      let (s, n, u) = polyline_start-get 0 t.polylines t.total_length found_index l.contiguous e in
      let has = (found_polyline t l num den hi b).0 in
      let (lo, up) = within-bounds num den p.offset p.polyline.total_length (rw e at has) in
      let (lt, le) = start_line p e u lo in
      let (hit, _, below) = found_line p u num den (or_zero on_polyline.curr_line) lt le up in
      let (span, on_span, within) = line_has-span (at num den) p _ hit in
      record {
        index = found_index;
        ref = p;
        line = _;
        span = span;
        on_index = refl;
        on_ref = e;
        on_line = ap some (min-pred below);
        on_span = on_span;
        line-lt = below;
        within = within;
        on_progress = rw (min-pred below, on_span);
      }

  moved :
      (p : PolylineRef) → IsOn (at num den) (on_the_line p) → Moved (at num den) t (on_the_line p)
  unfolding set_progress update_curr_line
  moved p on = record {
    info = refl;
    polylines = refl;
    total_length = refl;
    unmeasured = refl;
    on = on;
  }

  -- The search ends on a line that holds the position.
  pub locate-Moved :
      (t' : Train) × (locate (at num den) t ≡ some (t', true)) × Moved (at num den) t t'
  unfolding locate put_on_line Option.bind
  locate-Moved =
      let (p, e) = found_ref in
      let (_, _, u) = polyline_start-get 0 t.polylines t.total_length found_index l.contiguous e in
      (
        on_the_line p,
        rw (update_curr_polyline-found, e, has_points p u) refl,
        moved p (on_the_line-IsOn p e),
      )
