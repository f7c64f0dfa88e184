-- ===== src/Trains/Positions.antt =====
-- `PositionAttributes` of ui/web/js/railviz/trains.js. The anchor is a fraction, and a coordinate that
-- is moved to it is the numerator over the same denominator; an angle is the pair of the arguments of
-- `Math.atan2`. The mutable trains are part of the state.
pub mod Synced
pub mod Total
use motis.Prelude.{
  ℕ, zero, suc, ◌+◌, ◌*◌, Bool, true, false, ◌||◌, List, [], ◌∷◌, Option, none, some, if◌then◌else◌,
  length,
}
use mathlib.Core.Option
use motis.Prelude.Int.{ℤ, sub_ℕ}
use motis.Model.Geometry.{Point}
use motis.Model.Train.{Train, Progress, first_mercator_coordinate, last_mercator_coordinate}
use motis.Model.Position.{update_position, get_mercator_line}

-- `x / count` and `y / count`
pub record Anchor : Type 0 where
  pub x : ℕ
  pub y : ℕ
  pub count : ℕ

-- The five numbers of a train; a hidden train has −100 for each coordinate.
pub data Slot : Type 0 where
  hidden : Slot
  line : ℤ → ℤ → ℤ → ℤ → ℤ → ℤ → Slot

pub record PositionAttributes : Type 0 where
  pub trains : List Train
  pub position_data : List Slot
  -- `none` for a train without progress, for which −1 is written
  pub progress_data : List (Option Progress)
  pub anchor : Option Anchor
  -- the buffers of the graphics card
  pub positions : List Slot
  pub progresses : List (Option Progress)

unfoldable pub set_position_data : List Train → PositionAttributes → PositionAttributes
set_position_data trains p = record p {
  trains = trains;
  position_data = [];
  progress_data = [];
  anchor = none;
}

-- The sums over the trains; `none` is the TypeError of a train without coordinates.
unfoldable pub add_ends : List Train → ℕ → ℕ → Option (ℕ × ℕ)
add_ends [] x y = some (x, y)
add_ends (t ∷ ts) x y = Option.bind (first_mercator_coordinate t) λ first.
    Option.bind (last_mercator_coordinate t)
      λ last. add_ends ts (x + (first.x + last.x)) (y + (first.y + last.y))

unfoldable pub compute_anchor : List Train → Option Anchor
compute_anchor trains =
    Option.map (λ sums. record { x = sums.0; y = sums.1; count = 2 * length trains })
      (add_ends trains 0 0)

-- The numbers of `writePositionToBuffer`.
unfoldable pub slot_of : Anchor → Option (Point × Point) → Slot
slot_of anchor none = hidden
slot_of anchor (some (a, b)) =
    line (sub_ℕ (anchor.count * a.x) anchor.x) (sub_ℕ (anchor.count * a.y) anchor.y)
      (sub_ℕ (anchor.count * b.x) anchor.x) (sub_ℕ (anchor.count * b.y) anchor.y) (sub_ℕ b.y a.y)
      (sub_ℕ b.x a.x)

pub record Updated : Type 0 where
  pub trains : List Train
  pub slots : List Slot
  pub progresses : List (Option Progress)
  pub upload : Bool

abbrev pub add_train : Train → Slot → Bool → Updated → Updated
add_train t slot changed u = record {
  trains = t ∷ u.trains;
  slots = slot ∷ u.slots;
  progresses = t.curr_progress ∷ u.progresses;
  upload = changed || u.upload;
}

-- The loop after `setData`: every slot is written.
unfoldable pub write_all : Anchor → ℕ → List Train → Option Updated
write_all anchor time [] =
    some (record { trains = []; slots = []; progresses = []; upload = false })
write_all anchor time (t ∷ ts) = Option.bind (update_position time t) λ r.
    Option.bind (get_mercator_line r.0) λ merc_line.
      Option.map (add_train r.0 (slot_of anchor merc_line) true) (write_all anchor time ts)

abbrev pub head_or_hidden : List Slot → Slot
head_or_hidden [] = hidden
head_or_hidden (s ∷ ss) = s

abbrev pub tail : List Slot → List Slot
tail [] = []
tail (s ∷ ss) = ss

-- One train of the second loop: its slot is written only if its line has changed.
unfoldable pub write_slot : Anchor → Slot → Train × Bool → Option Slot
write_slot anchor old (t, true) = Option.map (slot_of anchor) (get_mercator_line t)
write_slot anchor old (t, false) = some old

-- The loop while the simulation continues, over the slots of the trains.
unfoldable pub write_changed : Anchor → ℕ → List Slot → List Train → Option Updated
write_changed anchor time slots [] =
    some (record { trains = []; slots = []; progresses = []; upload = false })
write_changed anchor time slots (t ∷ ts) = Option.bind (update_position time t) λ r.
    Option.bind (write_slot anchor (head_or_hidden slots) r)
      λ slot. Option.map (add_train r.0 slot r.1) (write_changed anchor time (tail slots) ts)

unfoldable pub first_update : Anchor → Updated → PositionAttributes → PositionAttributes
first_update anchor u p = record p {
  trains = u.trains;
  position_data = u.slots;
  progress_data = u.progresses;
  anchor = some anchor;
  positions = u.slots;
  progresses = u.progresses;
}

unfoldable pub next_update : Updated → PositionAttributes → PositionAttributes
next_update u p = record p {
  trains = u.trains;
  position_data = u.slots;
  progress_data = u.progresses;
  positions = if u.upload then u.slots else p.positions;
  progresses = u.progresses;
}

-- The two branches: the first update after `setData`, and the next ones.
unfoldable pub update_from : Option Anchor → ℕ → PositionAttributes → Option PositionAttributes
update_from none time p =
    Option.bind (compute_anchor p.trains)
      λ anchor. Option.map (λ u. first_update anchor u p) (write_all anchor time p.trains)
update_from (some anchor) time p =
    Option.map (λ u. next_update u p) (write_changed anchor time p.position_data p.trains)

unfoldable pub update_positions : ℕ → PositionAttributes → Option PositionAttributes
update_positions time p = update_from p.anchor time p
