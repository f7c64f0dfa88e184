-- ===== src/Trains/Positions/Synced.antt =====
-- The buffers of `PositionAttributes` in ui/web/js/railviz/trains.js, compared with the trains.
use motis.Prelude.{
  ℕ, ◌≡◌, refl, ap, ap₂, subst, Bool, true, false, ◌||◌, List, [], ◌∷◌, Option, none, some, arith,
  Bool-cases, Option-cases, inl, inr, map, Holds, Holds-some, ltb, ◌∙◌, sym,
}
use mathlib.Core.Option
use motis.Model.Train.{Train, PolylineRef, or_zero, is_bare}
use motis.Model.Position.{
  Position, position, update_position, get_mercator_line, keep_line, locate, put_on_line,
  set_progress, hide, is_some, curr_ref, line_has, update_curr_polyline,
}
use motis.Trains.Positions.{
  Anchor, Slot, PositionAttributes, Updated, add_train, slot_of, write_all, write_slot,
  write_changed, first_update, next_update, update_from, update_positions, compute_anchor,
}

-- Slot by slot, what a full rewrite would write.
abbrev pub AreSlots : Anchor → List Train → List Slot → Type 0
AreSlots anchor [] [] = Unit
AreSlots anchor [] (s ∷ ss) = ⊥
AreSlots anchor (t ∷ ts) [] = ⊥
AreSlots anchor (t ∷ ts) (s ∷ ss) =
    (Option.map (slot_of anchor) (get_mercator_line t) ≡ some s) × AreSlots anchor ts ss

-- Once there is an anchor, the array and the graphics card's buffers hold what the trains show.
abbrev pub SyncedAt : Option Anchor → PositionAttributes → Type 0
SyncedAt none p = Unit
SyncedAt (some anchor) p =
    AreSlots anchor p.trains p.position_data
    × (p.positions ≡ p.position_data)
    × (p.progresses ≡ map (λ t. t.curr_progress) p.trains)

abbrev pub IsSynced : PositionAttributes → Type 0
IsSynced p = SyncedAt p.anchor p

-- If no change is reported, the line to draw is the same.
abbrev Unchanged : Train → Train × Bool → Type 0
Unchanged t r = r.1 ≡ false → get_mercator_line r.0 ≡ get_mercator_line t

put_on_line-Unchanged :
    (x : Position) (t t' : Train) (p : PolylineRef) → Holds (Unchanged t) (put_on_line x p t')
unfolding put_on_line
put_on_line-Unchanged x t t' p = elim (Bool-cases (is_bare p)) [
  | inl bare ↦ rw bare tt
  | inr points ↦ rw points (λ e. cc)
]

locate-Unchanged : (x : Position) (t : Train) → Holds (Unchanged t) (locate x t)
unfolding locate Option.bind
locate-Unchanged x t = of_ref (curr_ref (update_curr_polyline x t))
  where
    of_ref :
        (o : Option PolylineRef)
        → Holds (Unchanged t) (Option.bind o λ p. put_on_line x p (update_curr_polyline x t))
    of_ref none = tt
    of_ref (some p) = put_on_line-Unchanged x t (update_curr_polyline x t) p

keep_line-Unchanged :
    (x : Position) (t : Train) (p : Option PolylineRef) → Holds (Unchanged t) (keep_line x t p)
unfolding keep_line set_progress get_mercator_line
keep_line-Unchanged x t none = tt
keep_line-Unchanged x t (some p) = elim (Bool-cases (is_bare p)) [
  | inl bare ↦ rw bare tt
  | inr points ↦ elim (Bool-cases (line_has x p (or_zero t.curr_line))) [
    | inl has ↦ rw (points, has) (λ e. refl)
    | inr misses ↦ rw (points, misses) (locate-Unchanged x t)
  ]
]

hide-Unchanged : (t : Train) → Unchanged t (hide t, is_some t.curr_polyline)
unfolding hide get_mercator_line
hide-Unchanged t h = ground arith

update_position-Unchanged : (time : ℕ) (t : Train) → Holds (Unchanged t) (update_position time t)
unfolding update_position
update_position-Unchanged time t = elim (Bool-cases (ltb time t.d_time || ltb t.a_time time)) [
  | inl out ↦ rw out (hide-Unchanged t)
  | inr running ↦ elim (Bool-cases (is_some t.curr_polyline)) [
    | inl visible ↦ rw (running, visible) (keep_line-Unchanged (position time t) t (curr_ref t))
    | inr unseen ↦ rw (running, unseen) (locate-Unchanged (position time t) t)
  ]
]

-- What a loop leaves behind.
abbrev Wrote : Anchor → Updated → Type 0
Wrote anchor u =
    AreSlots anchor u.trains u.slots × (u.progresses ≡ map (λ t. t.curr_progress) u.trains)

add_train-Wrote :
    (anchor : Anchor) (t : Train) (slot : Slot) (changed : Bool) (rest : Option Updated)
    → Option.map (slot_of anchor) (get_mercator_line t) ≡ some slot
    → Holds (Wrote anchor) rest
    → Holds (Wrote anchor) (Option.map (add_train t slot changed) rest)
add_train-Wrote anchor t slot changed none e h = tt
add_train-Wrote anchor t slot changed (some u) e h = ((e, h.0), ap (λ ps. t.curr_progress ∷ ps) h.1)

write_all-Wrote :
    (anchor : Anchor) (time : ℕ) (ts : List Train) → Holds (Wrote anchor) (write_all anchor time ts)
unfolding write_all Option.bind
write_all-Wrote anchor time [] = (tt, refl)
write_all-Wrote anchor time (t ∷ ts) = elim (Option-cases (update_position time t)) [
  | inl e ↦ rw e tt
  | inr (r, e) ↦ elim (Option-cases (get_mercator_line r.0)) [
    | inl f ↦ rw (e, f) tt
    | inr (merc_line, f) ↦
        rw (e, f)
          (add_train-Wrote anchor r.0 (slot_of anchor merc_line) true (write_all anchor time ts)
            (ap (Option.map (slot_of anchor)) f) (write_all-Wrote anchor time ts))
  ]
]

-- A slot is right after its train's round: it is written again, or it still is.
write_slot-right :
    (anchor : Anchor) (old : Slot) (t : Train) (r : Train × Bool) {slot : Slot}
    → Option.map (slot_of anchor) (get_mercator_line t) ≡ some old
    → Unchanged t r
    → write_slot anchor old r ≡ some slot
    → Option.map (slot_of anchor) (get_mercator_line r.0) ≡ some slot
unfolding write_slot
write_slot-right anchor old t (t', true) right same e = e
write_slot-right anchor old t (t', false) right same e = rw (same refl) (right ∙ e)

write_changed-Wrote :
    (anchor : Anchor) (time : ℕ) (slots : List Slot) (ts : List Train)
    → AreSlots anchor ts slots
    → Holds (Wrote anchor) (write_changed anchor time slots ts)
unfolding write_changed Option.bind
write_changed-Wrote anchor time [] [] h = (tt, refl)
write_changed-Wrote anchor time (s ∷ ss) [] h = absurd h
write_changed-Wrote anchor time [] (t ∷ ts) h = absurd h
write_changed-Wrote anchor time (s ∷ ss) (t ∷ ts) h = elim (Option-cases (update_position time t)) [
  | inl e ↦ rw e tt
  | inr (r, e) ↦ elim (Option-cases (write_slot anchor s r)) [
    | inl f ↦ rw (e, f) tt
    | inr (slot, f) ↦
        let same =
          Holds-some (Unchanged t) (update_position time t) (update_position-Unchanged time t) e in
        rw (e, f)
          (add_train-Wrote anchor r.0 slot r.1 (write_changed anchor time ss ts)
            (write_slot-right anchor s t r h.0 same f) (write_changed-Wrote anchor time ss ts h.1))
  ]
]

-- If nothing is uploaded, no slot has changed.
abbrev Kept : List Slot → Updated → Type 0
Kept slots u = u.upload ≡ false → u.slots ≡ slots

write_slot-kept :
    (anchor : Anchor) (old : Slot) (t : Train) {slot : Slot} {changed : Bool}
    → write_slot anchor old (t, changed) ≡ some slot
    → changed ≡ false
    → slot ≡ old
unfolding write_slot
write_slot-kept anchor old t {changed = true} e f = cc
write_slot-kept anchor old t {changed = false} e f = cc

add_train-Kept :
    (old : Slot) (slots : List Slot) (t : Train) (slot : Slot) (changed : Bool)
    (rest : Option Updated)
    → (changed ≡ false → slot ≡ old)
    → Holds (Kept slots) rest
    → Holds (Kept (old ∷ slots)) (Option.map (add_train t slot changed) rest)
add_train-Kept old slots t slot changed none e h = tt
add_train-Kept old slots t slot true (some u) e h = λ up. cc
add_train-Kept old slots t slot false (some u) e h = λ up. ap₂ (λ s ss. s ∷ ss) (e refl) (h up)

write_changed-Kept :
    (anchor : Anchor) (time : ℕ) (slots : List Slot) (ts : List Train)
    → AreSlots anchor ts slots
    → Holds (Kept slots) (write_changed anchor time slots ts)
unfolding write_changed Option.bind
write_changed-Kept anchor time [] [] h = λ up. refl
write_changed-Kept anchor time (s ∷ ss) [] h = absurd h
write_changed-Kept anchor time [] (t ∷ ts) h = absurd h
write_changed-Kept anchor time (s ∷ ss) (t ∷ ts) h = elim (Option-cases (update_position time t)) [
  | inl e ↦ rw e tt
  | inr (r, e) ↦ elim (Option-cases (write_slot anchor s r)) [
    | inl f ↦ rw (e, f) tt
    | inr (slot, f) ↦
        rw (e, f)
          (add_train-Kept s ss r.0 slot r.1 (write_changed anchor time ss ts)
            (write_slot-kept anchor s r.0 f) (write_changed-Kept anchor time ss ts h.1))
  ]
]

first_update-IsSynced :
    (anchor : Anchor) (u : Updated) (p : PositionAttributes)
    → Wrote anchor u
    → IsSynced (first_update anchor u p)
unfolding first_update
first_update-IsSynced anchor u p w = (w.0, refl, w.1)

next_update-SyncedAt :
    (anchor : Anchor) (u : Updated) (p : PositionAttributes)
    → p.positions ≡ p.position_data
    → Wrote anchor u
    → Kept p.position_data u
    → SyncedAt (some anchor) (next_update u p)
unfolding next_update
next_update-SyncedAt anchor u p same w kept = elim (Bool-cases u.upload) [
  | inl up ↦ rw up (w.0, refl, w.1)
  | inr up ↦ rw up (w.0, same ∙ sym (kept up), w.1)
]

anchor-next_update : (u : Updated) (p : PositionAttributes) → (next_update u p).anchor ≡ p.anchor
unfolding next_update
anchor-next_update u p = refl

update_from-SyncedAt :
    (anchor : Option Anchor) (time : ℕ) (p : PositionAttributes)
    → anchor ≡ p.anchor
    → SyncedAt anchor p
    → Holds IsSynced (update_from anchor time p)
unfolding update_from Option.bind
update_from-SyncedAt none time p a h = elim (Option-cases (compute_anchor p.trains)) [
  | inl e ↦ rw e tt
  | inr (anchor, e) ↦ elim (Option-cases (write_all anchor time p.trains)) [
    | inl f ↦ rw (e, f) tt
    | inr (u, f) ↦
        rw (e, f)
          (first_update-IsSynced anchor u p
            (Holds-some (Wrote anchor) _ (write_all-Wrote anchor time p.trains) f))
  ]
]
update_from-SyncedAt (some anchor) time p a h =
    elim (Option-cases (write_changed anchor time p.position_data p.trains)) [
      | inl f ↦ rw f tt
      | inr (u, f) ↦ rw f (
          subst (λ o. SyncedAt o (next_update u p)) (a ∙ sym (anchor-next_update u p))
            (next_update-SyncedAt anchor u p h.1
              (Holds-some (Wrote anchor) _
                (write_changed-Wrote anchor time p.position_data p.trains h.0) f)
              (Holds-some (Kept p.position_data) _
                (write_changed-Kept anchor time p.position_data p.trains h.0) f)))
    ]

-- An update of the positions keeps the buffers right, also when it writes and uploads only the
-- trains whose line has changed: afterwards each slot of the array and of the graphics card's buffer
-- is what a full rewrite would write, and so are the progresses.
pub update_positions-IsSynced :
    (time : ℕ) (p : PositionAttributes) → IsSynced p → Holds IsSynced (update_positions time p)
unfolding update_positions
update_positions-IsSynced time p h = update_from-SyncedAt p.anchor time p refl h
