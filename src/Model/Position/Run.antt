-- ===== src/Model/Position/Run.antt =====
-- `updatePosition` of ui/web/js/railviz/model.js, called again and again as the map is drawn.
use motis.Prelude.{
  ℕ, Bool, ◌≤◌, ◌<◌, ◌≡◌, refl, List, [], ◌∷◌, Option, some, ◌∙◌, ◌⊎◌, inl, inr, Bool-cases, ltb,
  arith,
}
use mathlib.Core.Option
use motis.Model.Train.{Train}
use motis.Model.Train.Layout.{IsLaidOut}
use motis.Model.Position.{position, hide, update_position}
use motis.Model.Position.Coverage.{IsOn}
use motis.Model.Position.Update.{
  IsRunning, IsHidden, IsReady, position-running, update_position-Moved, Moved-IsLaidOut,
  position-Moved,
}
use motis.Model.Position.Display.{update_position-outside}

-- The updates of a train at a list of times, in order, as the render loop makes them.
unfoldable pub run_updates : List ℕ → Train → Option Train
run_updates [] t = some t
run_updates (time ∷ times) t = Option.bind (update_position time t) λ r. run_updates times r.0

-- Times that do not go back, from `earlier` on.
abbrev pub IsAscending : ℕ → List ℕ → Type 0
IsAscending earlier [] = Unit
IsAscending earlier (time ∷ times) = (earlier ≤ time) × IsAscending time times

abbrev pub last_time : ℕ → List ℕ → ℕ
last_time earlier [] = earlier
last_time earlier (time ∷ times) = last_time time times

-- Before the departure, or after the arrival.
abbrev pub IsOutside : ℕ → Train → Type 0
IsOutside time t = (time < t.d_time) ⊎ (t.a_time < time)

pub IsRunning-or_IsOutside :
    (time : ℕ) (t : Train) → t.d_time < t.a_time → IsRunning time t ⊎ IsOutside time t
IsRunning-or_IsOutside time t takes = elim (Bool-cases (ltb time t.d_time)) [
  | inl before ↦ inr (inl (ground arith))
  | inr departed ↦ elim (Bool-cases (ltb t.a_time time)) [
    | inl after ↦ inr (inr (ground arith))
    | inr arrives ↦
        inl (record { departed = ground arith; arrives = ground arith; takes_time = takes })
  ]
]

-- Where a train belongs at a time: on the line that holds its position, or nowhere.
abbrev pub IsPlaced : ℕ → Train → Type 0
IsPlaced time t = (IsRunning time t → IsOn (position time t) t) × (IsOutside time t → IsHidden t)

not-both : (time : ℕ) (t : Train) → IsRunning time t → IsOutside time t → ⊥
not-both time t run (inl before) = omega (arith, run.departed)
not-both time t run (inr after) = omega (arith, run.arrives)

pub hide-IsLaidOut : (t : Train) → IsLaidOut t → IsLaidOut (hide t)
unfolding hide
hide-IsLaidOut t l = record {
  contiguous = l.contiguous;
  nonempty = l.nonempty;
  measured = l.measured;
}

-- A train after an update.
record Updated (time : ℕ) (t t' : Train) : Type 0 where
  info : t'.info ≡ t.info
  laid_out : IsLaidOut t'
  placed : IsPlaced time t'

module _ (earlier time : ℕ) (t : Train) (l : IsLaidOut t) (takes : t.d_time < t.a_time)
    (ready : IsReady earlier time t) where
  hide-Updated : IsOutside time t → Updated time t (hide t)
  unfolding hide
  hide-Updated out = record {
    info = refl;
    laid_out = hide-IsLaidOut t l;
    placed = ((λ run. absurd (not-both time (hide t) run out)), (λ _. (refl, refl)));
  }

  update_position-Updated :
      (r : Train × Bool) × (update_position time t ≡ some r) × Updated time t r.0
  update_position-Updated = elim (IsRunning-or_IsOutside time t takes) [
    | inr out ↦ ((hide t, _), (update_position-outside time t out).0, hide-Updated out)
    | inl run ↦
        let (r, e, m) = update_position-Moved time t l run earlier ready in
        (
          r,
          e,
          record {
            info = m.info;
            laid_out = Moved-IsLaidOut m l;
            placed = (
              (λ _. rw (position-Moved m time) m.on),
              (λ out. absurd (not-both time t run (rw m.info at out))),
            );
          },
        )
  ]

IsPlaced-IsReady :
    (time later : ℕ) (t : Train)
    → IsLaidOut t
    → t.d_time < t.a_time
    → IsPlaced time t
    → time ≤ later
    → IsReady time later t
IsPlaced-IsReady time later t l takes (on, off) le = elim (IsRunning-or_IsOutside time t takes) [
  | inr out ↦ inl (off out)
  | inl run ↦ inr (le, rw (position-running time t l.measured run) at (on run))
]

-- However many updates are made of a train with a route and a journey that takes time, at times that
-- do not go back: none fails, and after the last one the train stands on a line that holds its
-- position at that time if it is running then, and is hidden before its departure and after its
-- arrival. At first the train is hidden, or where an update at an earlier time put it.
pub run_updates-IsOn :
    (earlier time : ℕ) (times : List ℕ) (t : Train)
    → IsLaidOut t
    → t.d_time < t.a_time
    → IsReady earlier time t
    → IsAscending time times
    → (t' : Train) × (run_updates (time ∷ times) t ≡ some t')
      × (t'.info ≡ t.info)
      × (IsRunning (last_time time times) t' → IsOn (position (last_time time times) t') t')
      × (IsOutside (last_time time times) t' → IsHidden t')
unfolding run_updates Option.bind
run_updates-IsOn earlier time [] t l takes ready a =
    let (r, e, u) = update_position-Updated earlier time t l takes ready in
    (r.0, rw e refl, u.info, u.placed.0, u.placed.1)
run_updates-IsOn earlier time (later ∷ times) t l takes ready (le, a) =
    let (r, e, u) = update_position-Updated earlier time t l takes ready in
    let still : r.0.d_time < r.0.a_time = rw u.info takes in
    let ready' = IsPlaced-IsReady time later r.0 u.laid_out still u.placed le in
    let (t', e', i, on, off) = run_updates-IsOn time later times r.0 u.laid_out still ready' a in
    (t', rw e e', i ∙ u.info, on, off)
