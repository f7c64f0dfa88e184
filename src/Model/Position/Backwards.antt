-- ===== src/Model/Position/Backwards.antt =====
-- `updatePosition` of ui/web/js/railviz/model.js, called with a time before the train's polyline:
-- the searches only go forwards.
use motis.Prelude.{
  ℕ, zero, suc, ◌+◌, ◌-◌, ◌*◌, ◌≤◌, ◌<◌, ◌≡◌, refl, min, Bool, true, false, List, [], ◌∷◌, some,
  length, get_elem?, arith, ap, sym, subst, ltb, ◌||◌, get_elem?-some, lt-length_of_get_elem?,
}
use native.Mathlib.Nat.{mul-le-mul_right, le_trans}
use mathlib.Core.Option
use motis.Model.Train.{Train, PolylineRef, or_zero}
use motis.Model.Train.Layout.{IsUsable, IsLaidOut, polyline_start, polyline_start-get}
use motis.Model.Position.{
  Position, at, is_within, seek, polyline_has, line_has, is_some, curr_ref, position, keep_line,
  locate, put_on_line, update_curr_polyline, update_curr_line, set_progress, update_position,
}
use motis.Model.Position.Lines.{get_curr_line_pos-lt, offset-le-line_start}
use motis.Model.Position.Coverage.{IsOn, has_points}
use motis.Model.Position.Update.{IsRunning, num, den, position-running}

seek-misses :
    (rounds i : ℕ) (hit : ℕ → Bool)
    → ((k : ℕ) → i ≤ k → k < i + rounds → hit k ≡ false)
    → seek rounds i hit ≡ i + rounds
unfolding seek
seek-misses zero i hit miss = omega arith
seek-misses (suc rounds) i hit miss =
    rw (miss i (omega arith) (omega arith)) (
      omega (arith, seek-misses rounds (i + 1) hit (λ k lo hi. miss k (omega arith) (omega arith))))

le-polyline_start : (o : ℕ) (ps : List PolylineRef) (k : ℕ) → o ≤ polyline_start o ps k
le-polyline_start o [] k = omega arith
le-polyline_start o (p ∷ ps) zero = omega arith
le-polyline_start o (p ∷ ps) (suc k) =
    omega (arith, le-polyline_start (o + p.polyline.total_length) ps k)

polyline_start_mono :
    (o : ℕ) (ps : List PolylineRef) (j k : ℕ)
    → j ≤ k
    → polyline_start o ps j ≤ polyline_start o ps k
polyline_start_mono o [] j k h = omega arith
polyline_start_mono o (p ∷ ps) zero k h = le-polyline_start o (p ∷ ps) k
polyline_start_mono o (p ∷ ps) (suc j) zero h = absurd (omega arith)
polyline_start_mono o (p ∷ ps) (suc j) (suc k) h =
    polyline_start_mono (o + p.polyline.total_length) ps j k (omega arith)

is_within-before :
    (num den offset len : ℕ) → num < offset * den → is_within (at num den) offset len ≡ false
unfolding is_within
is_within-before num den offset len h = ground arith

module _ (p : PolylineRef) (u : IsUsable p.polyline) (num den : ℕ)
    (before : num < p.offset * den) where
  line_has-before : (k : ℕ) → k < p.polyline.line_count → line_has (at num den) p k ≡ false
  line_has-before k h =
      let (span, e, o, _) = get_curr_line_pos-lt p u.measured k h in
      rw e (
        is_within-before num den span.offset span.len
          (rw o (le_trans before (mul-le-mul_right den (offset-le-line_start p k)))))

  -- The search for a line runs through, to the last line.
  curr_line-before :
      (old : ℕ)
      → let n = p.polyline.line_count in
        min (seek (n - old) old (line_has (at num den) p)) (n - 1) ≡ n - 1
  curr_line-before old =
      let n = p.polyline.line_count in
      omega (
        arith,
        seek-misses (n - old) old (line_has (at num den) p)
            (λ k lo hi. line_has-before k (omega arith)),
      )

module _ (t : Train) (l : IsLaidOut t) (num den index : ℕ)
    (before : num < polyline_start 0 t.polylines index * den) where
  polyline-before :
      (k : ℕ) {p : PolylineRef}
      → index ≤ k
      → get_elem? t.polylines k ≡ some p
      → (num < p.offset * den) × IsUsable p.polyline
  polyline-before k h e =
      let (s, _, u) = polyline_start-get 0 t.polylines t.total_length k l.contiguous e in
      (
        rw s (le_trans before (mul-le-mul_right den (polyline_start_mono 0 t.polylines index k h))),
        u,
      )

  polyline_has-before :
      (k : ℕ) → index ≤ k → k < length t.polylines → polyline_has (at num den) t.polylines k ≡ false
  polyline_has-before k h lt =
      let (p, e) = get_elem?-some t.polylines k lt in
      rw e (is_within-before num den p.offset p.polyline.total_length (polyline-before k h e).0)

  abbrev n : ℕ
  n = length t.polylines

  polyline-runs-through :
      index < n → seek (n - index) index (polyline_has (at num den) t.polylines) ≡ n
  polyline-runs-through lt =
      omega
        (arith, seek-misses (n - index) index _ (λ k lo hi. polyline_has-before k lo (omega arith)))

module _ (t : Train) (l : IsLaidOut t) (time : ℕ) (run : IsRunning time t) (old_position : Position)
    (on : IsOn old_position t)
    (before : num time t < polyline_start 0 t.polylines on.index * den time t) where
  abbrev x : Position
  x = at (num time t) (den time t)

  index-lt : on.index < length t.polylines
  index-lt = lt-length_of_get_elem? t.polylines on.index on.on_ref

  abbrev at_last : Train
  at_last = record t { curr_polyline = some (length t.polylines - 1) }

  update_curr_polyline-last : update_curr_polyline x t ≡ at_last
  unfolding update_curr_polyline
  update_curr_polyline-last = ground (arith, ap or_zero on.on_index, runs_through)
    where
      runs_through :
          seek
            (length t.polylines - or_zero t.curr_polyline)
            (or_zero t.curr_polyline)
            (polyline_has x t.polylines)
          ≡ length t.polylines
      runs_through =
          subst
            (λ i. seek (length t.polylines - i) i (polyline_has x t.polylines) ≡ length t.polylines)
            (sym (ap or_zero on.on_index))
            (polyline-runs-through t l (num time t) (den time t) on.index before index-lt)

  last_ref : (p : PolylineRef) × (get_elem? t.polylines (length t.polylines - 1) ≡ some p)
  last_ref = get_elem?-some t.polylines (length t.polylines - 1) (omega (arith, l.nonempty))

  misses-line : line_has x on.ref (or_zero t.curr_line) ≡ false
  misses-line =
      let (b, u) =
        polyline-before t l (num time t) (den time t) on.index before on.index (omega arith)
          on.on_ref in
      subst (λ k. line_has x on.ref k ≡ false) (sym (ap or_zero on.on_line))
        (line_has-before on.ref u (num time t) (den time t) b on.line on.line-lt)

  ref-IsUsable : (i : ℕ) {p : PolylineRef} → get_elem? t.polylines i ≡ some p → IsUsable p.polyline
  ref-IsUsable i e =
      let (_, _, u) = polyline_start-get 0 t.polylines t.total_length i l.contiguous e in u

  curr_ref-on : curr_ref t ≡ some on.ref
  curr_ref-on =
      subst (λ k. get_elem? t.polylines k ≡ some on.ref) (sym (ap or_zero on.on_index)) on.on_ref

  visible : (ltb time t.d_time || ltb t.a_time time) ≡ false
  visible = ground (arith, run.departed, run.arrives)

  -- If the time goes back so far that a train's position lies before the polyline on which it
  -- stands, the update puts it on the last line of its last polyline, which does not hold the
  -- position.
  pub update_position-back :
      (r : Train × Bool) × (p : PolylineRef) × (update_position time t ≡ some r)
      × (r.0.curr_polyline ≡ some (length t.polylines - 1))
      × (get_elem? t.polylines (length t.polylines - 1) ≡ some p)
      × (r.0.curr_line ≡ some (p.polyline.line_count - 1))
      × (line_has (position time t) p (p.polyline.line_count - 1) ≡ false)
  unfolding update_position keep_line locate put_on_line Option.bind set_progress update_curr_line
  update_position-back =
      let (p, e) = last_ref in
      let (b, u) =
        polyline-before t l (num time t) (den time t) on.index before (length t.polylines - 1)
          (omega (arith, index-lt)) e in
      (
        (set_progress x p (update_curr_line x p at_last), true),
        p,
        rw (
          visible,
          position-running time t l.measured run,
          ap is_some on.on_index,
          curr_ref-on,
          misses-line,
          has_points on.ref (ref-IsUsable on.index on.on_ref),
          update_curr_polyline-last,
          e,
          has_points p u,
        ),
        refl,
        e,
        ap some (curr_line-before p u (num time t) (den time t) b (or_zero t.curr_line)),
        rw (position-running time t l.measured run) (
            line_has-before p u (num time t) (den time t) b (p.polyline.line_count - 1)
              (omega (arith, u.has_line))),
      )
