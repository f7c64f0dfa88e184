-- ===== src/Trains/State/Drawing.antt =====
-- A frame of ui/web/js/railviz/trains.js after new data: all attributes show it.
use motis.Prelude.{
  ℕ, suc, ap, subst, if◌then◌else◌, ◌≤◌, ◌≡◌, refl, Bool, true, List, [], ◌∷◌, Option, none, some,
  length, All, Holds, Holds-some, Holds-map, Option-cases, inl, inr, arith,
}
use mathlib.Core.Option
use motis.Model.Train.{Train}
use motis.Trains.Buffers.{
  VertexAttributes, is_zero, update_colors, color_data, vertex_data, update_vertices,
}
use motis.Trains.Buffers.Layout.{HasClass, color_data-some}
use motis.Model.Position.{update_position, get_mercator_line}
use motis.Trains.Positions.{
  Anchor, PositionAttributes, Updated, add_train, slot_of, write_all, first_update, update_from,
  compute_anchor, update_positions, set_position_data,
}
use motis.Trains.Positions.Synced.{IsSynced, SyncedAt, update_positions-IsSynced}
use motis.Trains.Positions.Total.{IsGood, update_positions-some}
use motis.Trains.State.{Trains, set_data, initialize, update_attributes, pre_render}

is_zero-suc : (n : ℕ) (a b : VertexAttributes) → (if is_zero (some (suc n)) then a else b) ≡ b
is_zero-suc n a b = ground arith

-- Train by train, what `updatePosition` makes of it.
abbrev pub AreUpdated : ℕ → List Train → List Train → Type 0
AreUpdated time [] [] = Unit
AreUpdated time [] (t' ∷ ts') = ⊥
AreUpdated time (t ∷ ts) [] = ⊥
AreUpdated time (t ∷ ts) (t' ∷ ts') =
    ((changed : Bool) × (update_position time t ≡ some (t', changed))) × AreUpdated time ts ts'

write_all-AreUpdated :
    (anchor : Anchor) (time : ℕ) (ts : List Train)
    → Holds (λ u. AreUpdated time ts u.trains) (write_all anchor time ts)
unfolding write_all Option.bind
write_all-AreUpdated anchor time [] = tt
write_all-AreUpdated anchor time (t ∷ ts) = elim (Option-cases (update_position time t)) [
  | inl e ↦ rw e tt
  | inr (r, e) ↦ elim (Option-cases (get_mercator_line r.0)) [
    | inl f ↦ rw (e, f) tt
    | inr (merc_line, f) ↦
        rw (e, f)
          (Holds-map (λ u. AreUpdated time (t ∷ ts) u.trains)
            (add_train r.0 (slot_of anchor merc_line) true) (write_all anchor time ts)
            (with_first r.0 r.1 e (write_all anchor time ts) (write_all-AreUpdated anchor time ts)))
  ]
]
  where
    with_first :
        (t' : Train) (changed : Bool)
        → update_position time t ≡ some (t', changed)
        → (m : Option Updated) → Holds (λ u. AreUpdated time ts u.trains) m
        → Holds (λ u. AreUpdated time (t ∷ ts) (t' ∷ u.trains)) m
    with_first t' changed e none h = tt
    with_first t' changed e (some u) h = ((changed, e), h)

-- The first update after `setData`: all slots are those of the new trains.
abbrev IsMade : ℕ → List Train → PositionAttributes → Type 0
IsMade time ts p =
    (anchor : Anchor) × (compute_anchor ts ≡ some anchor)
    × (p.anchor ≡ some anchor)
    × AreUpdated time ts p.trains

update_from-IsMade :
    (time : ℕ) (p : PositionAttributes) → Holds (IsMade time p.trains) (update_from none time p)
unfolding update_from first_update Option.bind
update_from-IsMade time p = elim (Option-cases (compute_anchor p.trains)) [
  | inl e ↦ rw e tt
  | inr (anchor, e) ↦ rw e (
      Holds-map (IsMade time p.trains) (λ u. first_update anchor u p)
        (write_all anchor time p.trains)
        (made anchor e (write_all anchor time p.trains)
          (write_all-AreUpdated anchor time p.trains)))
]
  where
    made :
        (anchor : Anchor)
        → compute_anchor p.trains ≡ some anchor
        → (m : Option Updated) → Holds (λ u. AreUpdated time p.trains u.trains) m
        → Holds (λ u. IsMade time p.trains (first_update anchor u p)) m
    made anchor e none h = tt
    made anchor e (some u) h = (anchor, e, refl, h)

-- The first frame after `setData` does not fail, if each train can be drawn and has a class that has
-- a colour. All attributes are made from the new trains: six vertices for each of them, and their
-- colours in order; the trains that are drawn are the new ones, each as `updatePosition` leaves it at
-- the time of the frame; and relative to the anchor of the new trains, each has the slot of the line
-- that it is on and its progress, and these are uploaded.
pub pre_render-set_data :
    (earlier time : ℕ) (t : Train) (ts : List Train) (s : Trains)
    → earlier ≤ time
    → All (IsGood earlier) (t ∷ ts)
    → All HasClass (t ∷ ts)
    → (s' : Trains) × (pre_render time (set_data (some (t ∷ ts)) s) ≡ some s')
      × (s'.vertices.buffer ≡ vertex_data (length (t ∷ ts)))
      × (color_data (t ∷ ts) ≡ some s'.colors.buffer)
      × (s'.trains ≡ s'.positions.trains)
      × AreUpdated time (t ∷ ts) s'.positions.trains
      × ((anchor : Anchor) × (compute_anchor (t ∷ ts) ≡ some anchor)
          × SyncedAt (some anchor) s'.positions)
      × All (IsGood time) s'.trains
unfolding pre_render set_data initialize update_attributes update_colors update_vertices
    set_position_data update_positions Option.bind
pre_render-set_data earlier time t ts s le good classes =
    let fresh = set_position_data (t ∷ ts) s.positions in
    let (q, e, after) = update_positions-some earlier time fresh le good in
    let (bytes, f) = color_data-some (t ∷ ts) classes in
    let synced =
      Holds-some IsSynced (update_positions time fresh) (update_positions-IsSynced time fresh tt)
        e in
    let (anchor, at, has, updated) =
      Holds-some (IsMade time (t ∷ ts)) (update_from none time fresh)
        (update_from-IsMade time fresh) e in
    rw (e, f)
      (
        _,
        refl,
        ap (λ v. v.buffer) (is_zero-suc (length ts) _ _),
        refl,
        refl,
        updated,
        (anchor, at, subst (λ o. SyncedAt o q) has synced),
        after,
      )
