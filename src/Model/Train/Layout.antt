-- ===== src/Model/Train/Layout.antt =====
-- How the constructor of `Train` (ui/web/js/railviz/model.js) lays the polylines of a train out.
use motis.Prelude.{
  ℕ, zero, suc, true, false, ◌+◌, ◌<◌, ◌≡◌, refl, List, [], ◌∷◌, Option, none, some, length,
  get_elem?, arith, All, ap, subst, Holds, Holds-map,
}
use mathlib.Core.Option
use motis.Prelude.Int.{ℤ, abs_ℕ}
use motis.Model.Geometry.{Polyline}
use motis.Model.Geometry.Measure.{IsMeasured}
use motis.Model.Train.{
  Station, TrainData, PolylineRef, Polylines, Train, bare_polyline, is_bare, resolve_polylines,
  cons_ref, default_info, find_station_by_id, new_train,
}

-- A measured polyline with at least one line.
pub record IsUsable (p : Polyline) : Type 0 where
  pub measured : IsMeasured p
  pub has_line : 0 < p.line_count

-- A slot of `data.polylines`; an empty one stands for `{}`.
abbrev pub SlotIsUsable : Option Polyline → Type 0
SlotIsUsable none = Unit
SlotIsUsable (some p) = IsUsable p

-- Each polyline begins where the one before it ends, the last ends at `total`.
abbrev pub IsContiguous : ℕ → List PolylineRef → ℕ → Type 0
IsContiguous o [] total = o ≡ total
IsContiguous o (p ∷ ps) total =
    (p.offset ≡ o) × IsUsable p.polyline × IsContiguous (o + p.polyline.total_length) ps total

pub record IsLaidOut (t : Train) : Type 0 where
  pub contiguous : IsContiguous 0 t.polylines t.total_length
  pub nonempty : 0 < length t.polylines
  pub measured : t.unmeasured ≡ false

SlotIsUsable-get :
    (slots : List (Option Polyline)) (i : ℕ) {p : Polyline}
    → All SlotIsUsable slots
    → get_elem? slots i ≡ some (some p)
    → IsUsable p
SlotIsUsable-get [] i u h = cc
SlotIsUsable-get (s ∷ slots) zero {p} u h = let e : s ≡ some p = cc in subst SlotIsUsable e u.0
SlotIsUsable-get (s ∷ slots) (suc i) u h = SlotIsUsable-get slots i u.1 h

abbrev pub HasPoints : PolylineRef → Type 0
HasPoints p = is_bare p ≡ false

abbrev LaidOutFrom : ℕ → List ℤ → Polylines → Type 0
LaidOutFrom o indices r =
    (All HasPoints r.refs → (r.unmeasured ≡ false) × IsContiguous o r.refs r.offset)
    × (length r.refs ≡ length indices)

resolve_polylines-LaidOutFrom :
    (slots : List (Option Polyline)) (o : ℕ) (indices : List ℤ)
    → All SlotIsUsable slots
    → Holds (LaidOutFrom o indices) (resolve_polylines slots o indices)
unfolding resolve_polylines
resolve_polylines-LaidOutFrom slots o [] u = ((λ _. (refl, refl)), refl)
resolve_polylines-LaidOutFrom slots o (i ∷ indices) u =
    in_slot (get_elem? slots (abs_ℕ i)) refl (λ q. resolve_polylines-LaidOutFrom slots q indices u)
  where
    in_slot :
        (s : Option (Option Polyline))
        → get_elem? slots (abs_ℕ i) ≡ s
        → ((q : ℕ) → Holds (LaidOutFrom q indices) (resolve_polylines slots q indices))
        → Holds (LaidOutFrom o (i ∷ indices)) (resolve_polylines slots o (i ∷ indices))
    in_slot none e ih = rw (e, resolve_polylines) tt
    in_slot (some none) e ih =
        rw (e, resolve_polylines) (bare (resolve_polylines slots o indices) (ih o))
      where
        bare :
            (m : Option Polylines)
            → Holds (LaidOutFrom o indices) m
            → Holds (LaidOutFrom o (i ∷ indices)) (
                Option.map
                  (λ rest. record (cons_ref i o bare_polyline rest) { unmeasured = true })
                  m)
        bare none h = tt
        bare (some r) h = ((λ a. let no : true ≡ false = a.0 in cc), ap suc h.1)
    in_slot (some (some p)) e ih =
        let used = SlotIsUsable-get slots (abs_ℕ i) u e in
        rw (e, resolve_polylines)
          (with_rest used (resolve_polylines slots (o + p.total_length) indices)
            (ih (o + p.total_length)))
      where
        with_rest :
            IsUsable p
            → (m : Option Polylines) → Holds (LaidOutFrom (o + p.total_length) indices) m
            → Holds (LaidOutFrom o (i ∷ indices)) (Option.map (cons_ref i o p) m)
        with_rest used none h = tt
        with_rest used (some r) h =
            ((λ a. let (m, c) = h.0 a.1 in (m, (refl, used, c))), ap suc h.1)

abbrev train_of : List Station → TrainData → Polylines → Train
train_of stations t p = record {
  info = default_info t;
  d_station = find_station_by_id stations t.d_station_id;
  a_station = find_station_by_id stations t.a_station_id;
  polylines = p.refs;
  total_length = p.offset;
  unmeasured = p.unmeasured;
  curr_polyline = none;
  curr_line = none;
  curr_progress = none;
}

-- What the constructor makes of `t`: the polylines end to end from 0 if each has coordinates, one for
-- each index, and no position yet.
pub record IsNew (t : TrainData) (train : Train) : Type 0 where
  pub info : train.info ≡ default_info t
  pub laid_out :
      All HasPoints train.polylines
      → (train.unmeasured ≡ false) × IsContiguous 0 train.polylines train.total_length
  pub count : length train.polylines ≡ length t.indices
  pub no_polyline : train.curr_polyline ≡ none
  pub no_line : train.curr_line ≡ none

-- Over measured polylines of at least one line each, or none at all, the constructor gives a train one
-- polyline for each index. If each of the train's polylines has coordinates, they are laid end to end
-- from 0, and its total length is where the last one ends. Missing numbers are replaced by zero, and
-- the train has no position yet.
pub new_train-IsNew :
    (stations : List Station) (slots : List (Option Polyline)) (t : TrainData)
    → All SlotIsUsable slots
    → Holds (IsNew t) (new_train stations slots t)
unfolding new_train
new_train-IsNew stations slots t u =
    Holds-map (IsNew t) (train_of stations t) (resolve_polylines slots 0 t.indices) (
      with_rest (resolve_polylines slots 0 t.indices)
        (resolve_polylines-LaidOutFrom slots 0 t.indices u))
  where
    with_rest :
        (m : Option Polylines)
        → Holds (LaidOutFrom 0 t.indices) m
        → Holds (λ p. IsNew t (train_of stations t p)) m
    with_rest none h = tt
    with_rest (some r) h = record {
      info = refl;
      laid_out = h.0;
      count = h.1;
      no_polyline = refl;
      no_line = refl;
    }

-- Where polyline `k` begins, counted from `o`.
abbrev pub polyline_start : ℕ → List PolylineRef → ℕ → ℕ
polyline_start o [] k = o
polyline_start o (p ∷ ps) zero = o
polyline_start o (p ∷ ps) (suc k) = polyline_start (o + p.polyline.total_length) ps k

pub polyline_start-length :
    (o : ℕ) (ps : List PolylineRef) (total : ℕ)
    → IsContiguous o ps total
    → polyline_start o ps (length ps) ≡ total
polyline_start-length o [] total c = c
polyline_start-length o (p ∷ ps) total c =
    polyline_start-length (o + p.polyline.total_length) ps total c.2

pub polyline_start-get :
    (o : ℕ) (ps : List PolylineRef) (total k : ℕ) {p : PolylineRef}
    → IsContiguous o ps total
    → get_elem? ps k ≡ some p
    → (p.offset ≡ polyline_start o ps k)
      × (p.offset + p.polyline.total_length ≡ polyline_start o ps (suc k))
      × IsUsable p.polyline
polyline_start-get o [] total k c e = cc
polyline_start-get o (q ∷ []) total zero {p} c e =
    let e' : q ≡ p = cc in rw (← e') (c.0, omega arith, c.1)
polyline_start-get o (q ∷ r ∷ ps) total zero {p} c e =
    let e' : q ≡ p = cc in rw (← e') (c.0, omega arith, c.1)
polyline_start-get o (q ∷ ps) total (suc k) c e =
    polyline_start-get (o + q.polyline.total_length) ps total k c.2 e
