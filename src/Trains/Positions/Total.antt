-- ===== src/Trains/Positions/Total.antt =====
-- The updates of `PositionAttributes` in ui/web/js/railviz/trains.js do not fail: trains that
-- `preprocess` made can be drawn at all times that do not go back.
use motis.Prelude.{
  ℕ, ◌+◌, ◌*◌, ◌-◌, ◌≤◌, ◌<◌, ◌≡◌, refl, Bool, true, false, List, [], ◌∷◌, Option, none, some,
  length, get_elem?, get_elem?-some, not, arith, ◌⊎◌, inl, inr, All, ap,
}
use mathlib.Core.Option
use motis.Model.Geometry.{Point}
use motis.Model.Train.{
  Train, PolylineRef, first_mercator_coordinate, last_mercator_coordinate, end_of, last?,
}
use motis.Model.Train.Layout.{IsLaidOut, polyline_start-get}
use motis.Model.Position.{at, hide, update_position, get_mercator_line}
use motis.Model.Position.Coverage.{IsOn}
use motis.Model.Position.Update.{
  IsRunning, IsHidden, num, den, position-running, update_position-Moved, Moved-IsLaidOut,
  num-Moved,
}
use motis.Model.Position.Run.{hide-IsLaidOut, IsRunning-or_IsOutside}
use motis.Model.Position.Display.{update_position-outside, IsOn-get_mercator_line}
use motis.Trains.Positions.{
  Anchor, Slot, PositionAttributes, Updated, add_ends, compute_anchor, add_train, write_all,
  write_changed, write_slot, slot_of, head_or_hidden, tail, first_update, next_update, update_from,
  update_positions,
}

-- A train with a route and a journey that takes time: hidden, or on the line that holds its position
-- at `time`, that of the last update.
pub record IsGood (time : ℕ) (t : Train) : Type 0 where
  pub laid_out : IsLaidOut t
  pub takes_time : t.d_time < t.a_time
  pub placed : IsHidden t ⊎ IsOn (at (num time t) (den time t)) t

pub record Drawn (time : ℕ) (t : Train) : Type 0 where
  pub result : Train × Bool
  pub merc_line : Option (Point × Point)
  pub updates : update_position time t ≡ some result
  pub good : IsGood time result.0
  pub draws : get_mercator_line result.0 ≡ some merc_line

hide-IsGood : (time : ℕ) (t : Train) → IsLaidOut t → t.d_time < t.a_time → IsGood time (hide t)
unfolding hide
hide-IsGood time t l takes = record {
  laid_out = hide-IsLaidOut t l;
  takes_time = takes;
  placed = inl (refl, refl);
}

module _ (earlier time : ℕ) (t : Train) (e : earlier ≤ time) (g : IsGood earlier t) where
  running-Drawn : IsRunning time t → Drawn time t
  running-Drawn run =
      let placed : IsHidden t ⊎ (earlier ≤ time) × IsOn (at (num earlier t) (den earlier t)) t =
        elim g.placed [ inl h ↦ inl h | inr on ↦ inr (e, on) ] in
      let (r, u, m) = update_position-Moved time t g.laid_out run earlier placed in
      let laid_out = Moved-IsLaidOut m g.laid_out in
      let (a, b, draws) = IsOn-get_mercator_line laid_out m.on in
      record {
        result = r;
        merc_line = some (a, b);
        updates = u;
        good = record {
          laid_out = laid_out;
          takes_time = rw m.info g.takes_time;
          placed =
              inr (rw (num-Moved m time, ← position-running time t g.laid_out.measured run) m.on);
        };
        draws = draws;
      }

  outside-Drawn : (time < t.d_time) ⊎ (t.a_time < time) → Drawn time t
  outside-Drawn out =
      let (u, draws) = update_position-outside time t out in
      record {
        result = (hide t, _);
        merc_line = none;
        updates = u;
        good = hide-IsGood time t g.laid_out g.takes_time;
        draws = draws;
      }

  -- An update and the look at the line do not fail, whether the train is running or not.
  good-Drawn : Drawn time t
  good-Drawn = elim (IsRunning-or_IsOutside time t g.takes_time) [
    | inl run ↦ running-Drawn run
    | inr out ↦ outside-Drawn out
  ]

end_of-some {ℓ} :
    {A : Type ℓ} (fwd : Bool) (xs : List A) → 0 < length xs → (a : A) × (end_of fwd xs ≡ some a)
unfolding end_of
end_of-some true xs h = get_elem?-some xs 0 h
end_of-some false xs h = get_elem?-some xs (length xs - 1) (omega arith)

module _ (t : Train) (l : IsLaidOut t) where
  end-some :
      (i : ℕ) (fwd : PolylineRef → Bool)
      → i < length t.polylines
      → (p : PolylineRef) × (a : Point) × (get_elem? t.polylines i ≡ some p)
        × (end_of (fwd p) p.polyline.mercator_coordinates ≡ some a)
  end-some i fwd h =
      let (p, e) = get_elem?-some t.polylines i h in
      let (_, _, u) = polyline_start-get 0 t.polylines t.total_length i l.contiguous e in
      let (a, f) =
        end_of-some (fwd p) p.polyline.mercator_coordinates
          (omega (arith, u.measured.points, u.has_line)) in
      (p, a, e, f)

  first-some : (a : Point) × (first_mercator_coordinate t ≡ some a)
  unfolding first_mercator_coordinate Option.bind
  first-some = let (p, a, e, f) = end-some 0 (λ p. p.fwd) l.nonempty in (a, rw (e, f))

  last-some : (a : Point) × (last_mercator_coordinate t ≡ some a)
  unfolding last_mercator_coordinate Option.bind last?
  last-some =
      let (p, a, e, f) =
        end-some (length t.polylines - 1) (λ p. not p.fwd) (omega (arith, l.nonempty)) in
      (a, rw (e, f))

add_ends-some :
    (time : ℕ) (ts : List Train) (x y : ℕ)
    → All (IsGood time) ts
    → (sums : ℕ × ℕ) × (add_ends ts x y ≡ some sums)
unfolding add_ends Option.bind
add_ends-some time [] x y g = ((x, y), refl)
add_ends-some time (t ∷ ts) x y g =
    let (first, e) = first-some t g.0.laid_out in
    let (last, f) = last-some t g.0.laid_out in
    rw (e, f) (add_ends-some time ts (x + (first.x + last.x)) (y + (first.y + last.y)) g.1)

module _ (anchor : Anchor) (earlier time : ℕ) (le : earlier ≤ time) where
  -- A loop that came through.
  abbrev Through : Option Updated → Type 0
  Through o = (u : Updated) × (o ≡ some u) × All (IsGood time) u.trains

  add_train-Through :
      (t : Train) (slot : Slot) (changed : Bool) (rest : Option Updated)
      → IsGood time t
      → Through rest
      → Through (Option.map (add_train t slot changed) rest)
  add_train-Through t slot changed rest g (u, e, all) =
      (add_train t slot changed u, ap (Option.map (add_train t slot changed)) e, (g, all))

  write_all-Through :
      (ts : List Train) → All (IsGood earlier) ts → Through (write_all anchor time ts)
  unfolding write_all Option.bind
  write_all-Through [] g = (_, refl, tt)
  write_all-Through (t ∷ ts) g =
      let d = good-Drawn earlier time t le g.0 in
      rw (d.updates, d.draws)
        (add_train-Through d.result.0 (slot_of anchor d.merc_line) true (write_all anchor time ts)
          d.good (write_all-Through ts g.1))

  write_slot-some :
      (old : Slot) (r : Train × Bool) (m : Option (Point × Point))
      → get_mercator_line r.0 ≡ some m
      → (slot : Slot) × (write_slot anchor old r ≡ some slot)
  unfolding write_slot
  write_slot-some old (t, true) m e = (slot_of anchor m, rw e)
  write_slot-some old (t, false) m e = (old, refl)

  write_changed-Through :
      (slots : List Slot) (ts : List Train)
      → All (IsGood earlier) ts
      → Through (write_changed anchor time slots ts)
  unfolding write_changed Option.bind
  write_changed-Through slots [] g = (_, refl, tt)
  write_changed-Through slots (t ∷ ts) g =
      let d = good-Drawn earlier time t le g.0 in
      let (slot, e) = write_slot-some (head_or_hidden slots) d.result d.merc_line d.draws in
      rw (d.updates, e)
        (add_train-Through d.result.0 slot d.result.1 (write_changed anchor time (tail slots) ts)
          d.good (write_changed-Through (tail slots) ts g.1))

update_from-some :
    (anchor : Option Anchor) (earlier time : ℕ) (p : PositionAttributes)
    → earlier ≤ time
    → All (IsGood earlier) p.trains
    → (q : PositionAttributes) × (update_from anchor time p ≡ some q) × All (IsGood time) q.trains
unfolding update_from Option.bind first_update next_update compute_anchor
update_from-some none earlier time p le g =
    let (sums, e) = add_ends-some earlier p.trains 0 0 g in
    let anchor : Anchor = record { x = sums.0; y = sums.1; count = 2 * length p.trains } in
    let (u, f, all) = write_all-Through anchor earlier time le p.trains g in
    (first_update anchor u p, rw (e, f), all)
update_from-some (some anchor) earlier time p le g =
    let (u, f, all) = write_changed-Through anchor earlier time le p.position_data p.trains g in
    (next_update u p, rw f, all)

-- An update of the positions comes to an end without a TypeError, at any time that is not before the
-- last one, if each train has a route, takes time and is hidden or stands where the last update put
-- it; and then the same holds of the trains at the new time.
pub update_positions-some :
    (earlier time : ℕ) (p : PositionAttributes)
    → earlier ≤ time
    → All (IsGood earlier) p.trains
    → (q : PositionAttributes) × (update_positions time p ≡ some q) × All (IsGood time) q.trains
unfolding update_positions
update_positions-some earlier time p le g = update_from-some p.anchor earlier time p le g
