-- ===== src/Model/Position/Update.antt =====
-- `updatePosition` of ui/web/js/railviz/model.js, called with times that do not go back.
use motis.Prelude.{
  ℕ, ◌-◌, ◌*◌, ◌≤◌, ◌<◌, ◌≡◌, refl, Bool, true, false, List, [], ◌∷◌, none, some, get_elem?, arith,
  subst, ap, sym, ◌∙◌, lt-length_of_get_elem?, ltb, ◌||◌, Bool-cases, ◌⊎◌, inl, inr,
}
use native.Mathlib.Nat.{mul-le-mul_right, le_trans}
use motis.Model.Train.{PolylineRef, Train, or_zero, is_bare}
use motis.Model.Train.Layout.{IsUsable, IsLaidOut, polyline_start, polyline_start-get}
use motis.Model.Position.{
  Position, at, line_has, set_progress, keep_line, position, is_some, curr_ref, update_position,
  locate,
}
use motis.Model.Position.Lines.{
  line_start, line_start-zero, get_curr_line_pos-lt, offset-le-line_start,
}
use motis.Model.Position.Coverage.{
  IsOn, IsBehind, Moved, locate-Moved, has_points, within-bounds, line_has-span,
}

-- The train runs at `time`, and its journey takes time.
pub record IsRunning (time : ℕ) (t : Train) : Type 0 where
  pub departed : t.d_time ≤ time
  pub arrives : time ≤ t.a_time
  pub takes_time : t.d_time < t.a_time

module _ (time : ℕ) (t : Train) where
  abbrev pub num : ℕ
  num = (time - t.d_time) * t.total_length

  abbrev pub den : ℕ
  den = t.a_time - t.d_time

  pub position-running : t.unmeasured ≡ false → IsRunning time t → position time t ≡ at num den
  unfolding position
  position-running m r = ground arith

  position-le-total : IsRunning time t → num ≤ t.total_length * den
  position-le-total r = grind arith

-- No line has been found yet, or the train has left the map.
abbrev pub IsHidden : Train → Type 0
IsHidden t = (t.curr_polyline ≡ none) × (t.curr_line ≡ none)

-- The state in which an update at `time` finds a train: hidden, or where an earlier update put it.
abbrev pub IsReady : ℕ → ℕ → Train → Type 0
IsReady earlier time t = IsHidden t ⊎ (earlier ≤ time) × IsOn (at (num earlier t) (den earlier t)) t

polyline_start-zero : (ps : List PolylineRef) → polyline_start 0 ps 0 ≡ 0
polyline_start-zero [] = refl
polyline_start-zero (p ∷ ps) = refl

module _ (time : ℕ) (t : Train) (l : IsLaidOut t) where
  hidden-IsBehind : IsHidden t → IsBehind (num time t) (den time t) t
  hidden-IsBehind h = record {
    polyline-lt = rw h.0 l.nonempty;
    polyline-le = rw (h.0, polyline_start-zero) (omega arith);
    line-le = λ ref e.
        let (s, _, u) =
          polyline_start-get 0 t.polylines t.total_length 0 l.contiguous (rw h.0 at e) in
        rw (h.1, line_start-zero ref u.measured, s, polyline_start-zero) (u.has_line, omega arith);
  }

  num_mono : (earlier : ℕ) → earlier ≤ time → num earlier t ≤ num time t
  num_mono earlier e = mul-le-mul_right t.total_length (omega arith)

  module _ (earlier : ℕ) (e : earlier ≤ time)
      (on : IsOn (at (num earlier t) (den earlier t)) t) where
    line-le-num :
        (u : IsUsable on.ref.polyline) → line_start on.ref on.line * den time t ≤ num time t
    line-le-num u =
        let (span, at_line, o, _) = get_curr_line_pos-lt on.ref u.measured on.line on.line-lt in
        let same : span ≡ on.span = cc (at_line, on.on_span) in
        let starts : on.span.offset ≡ line_start on.ref on.line =
          ap (λ s. s.offset) (sym same) ∙ o in
        rw (← starts) (
          le_trans (within-bounds (num earlier t) (den earlier t) _ _ on.within).0
            (num_mono earlier e))

    on-IsBehind : IsBehind (num time t) (den time t) t
    on-IsBehind =
        let (s, _, u) =
          polyline_start-get 0 t.polylines t.total_length on.index l.contiguous on.on_ref in
        let below = line-le-num u in
        record {
          polyline-lt = rw on.on_index (lt-length_of_get_elem? t.polylines on.index on.on_ref);
          polyline-le =
              rw (on.on_index, ← s)
                (le_trans (mul-le-mul_right (den time t) (offset-le-line_start on.ref on.line))
                  below);
          line-le = λ ref found.
              let same : on.ref ≡ ref = cc (on.on_ref, rw on.on_index at found) in
              rw (on.on_line, ← same) (on.line-lt, below);
        }

  ready-IsBehind : (earlier : ℕ) → IsReady earlier time t → IsBehind (num time t) (den time t) t
  ready-IsBehind earlier (inl hidden) = hidden-IsBehind hidden
  ready-IsBehind earlier (inr (e, on)) = on-IsBehind earlier e on

module _ (time : ℕ) (t : Train) (l : IsLaidOut t) (run : IsRunning time t) where
  abbrev x : Position
  x = at (num time t) (den time t)

  kept-Moved :
      (earlier : ℕ)
      → (on : IsOn (at (num earlier t) (den earlier t)) t) → line_has x on.ref on.line ≡ true
      → Moved x t (set_progress x on.ref t)
  unfolding set_progress
  kept-Moved earlier on has =
      let (span, on_span, within) = line_has-span x on.ref on.line has in
      record {
        info = refl;
        polylines = refl;
        total_length = refl;
        unmeasured = refl;
        on = record {
          index = on.index;
          ref = on.ref;
          line = on.line;
          span = span;
          on_index = on.on_index;
          on_ref = on.on_ref;
          on_line = on.on_line;
          on_span = on_span;
          line-lt = on.line-lt;
          within = within;
          on_progress = rw (ap or_zero on.on_line, on_span);
        };
      }

  located :
      IsBehind (num time t) (den time t) t
      → (r : Train × Bool) × (locate x t ≡ some r) × Moved x t r.0
  located b =
      let (t', e, moved) =
        locate-Moved t l (num time t) (den time t) (position-le-total time t run) b in
      ((t', true), e, moved)

  points_on : {x : Position} (on : IsOn x t) → is_bare on.ref ≡ false
  points_on on =
      let (_, _, u) =
        polyline_start-get 0 t.polylines t.total_length on.index l.contiguous on.on_ref in
      has_points on.ref u

  keep_line-Moved :
      (earlier : ℕ)
      → earlier ≤ time
      → (on : IsOn (at (num earlier t) (den earlier t)) t)
      → (r : Train × Bool) × (keep_line x t (some on.ref) ≡ some r) × Moved x t r.0
  unfolding keep_line
  keep_line-Moved earlier e on =
      rw (points_on on) (elim (Bool-cases (line_has x on.ref (or_zero t.curr_line))) [
        | inl has ↦
            let has' = subst (λ k. line_has x on.ref k ≡ true) (ap or_zero on.on_line) has in
            rw has ((set_progress x on.ref t, false), refl, kept-Moved earlier on has')
        | inr misses ↦ rw misses (located (on-IsBehind time t l earlier e on))
      ])

  is_running : (ltb time t.d_time || ltb t.a_time time) ≡ false
  is_running = ground (arith, run.departed, run.arrives)

  curr_ref-on :
      (earlier : ℕ) (on : IsOn (at (num earlier t) (den earlier t)) t) → curr_ref t ≡ some on.ref
  curr_ref-on earlier on =
      subst (λ k. get_elem? t.polylines k ≡ some on.ref) (sym (ap or_zero on.on_index)) on.on_ref

  -- A train that is running is put on the line that holds its position at `time`, and an update
  -- never fails: if the train is hidden, or an update at an earlier time put it where it was then.
  pub update_position-Moved :
      (earlier : ℕ)
      → IsReady earlier time t
      → (r : Train × Bool) × (update_position time t ≡ some r) × Moved (position time t) t r.0
  unfolding update_position
  update_position-Moved earlier (inl hidden) =
      rw (position-running time t l.measured run, is_running, ap is_some hidden.0)
        (located (hidden-IsBehind time t l hidden))
  update_position-Moved earlier (inr (e, on)) =
      rw
        (
          position-running time t l.measured run,
          is_running,
          ap is_some on.on_index,
          curr_ref-on earlier on,
        )
        (keep_line-Moved earlier e on)

module _ {t t' : Train} {x : Position} (m : Moved x t t') where
  pub Moved-IsLaidOut : IsLaidOut t → IsLaidOut t'
  Moved-IsLaidOut l = record {
    contiguous = rw (m.polylines, m.total_length) l.contiguous;
    nonempty = rw m.polylines l.nonempty;
    measured = rw m.unmeasured l.measured;
  }

  pub num-Moved : (time : ℕ) → at (num time t') (den time t') ≡ at (num time t) (den time t)
  num-Moved time = rw (m.info, m.total_length)

  pub position-Moved : (time : ℕ) → position time t' ≡ position time t
  unfolding position
  position-Moved time = rw (m.info, m.total_length, m.unmeasured)
