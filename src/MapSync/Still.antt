-- ===== src/MapSync/Still.antt =====
-- The maps of ui/web/js/map.js move together, and a movement does not go round in a circle.
use motis.Prelude.{ℕ, ◌+◌, ◌≡◌, refl, List, [], ◌∷◌, All, ◌==◌, arith, Bool-cases, inl, inr}
use motis.MapSync.{View, MapView, on, off, jump_to, sync}

-- The map shows the view, and its listener is on once.
abbrev pub IsSynced : View → MapView → Type 0
IsSynced view m = (m.view ≡ view) × (m.listeners ≡ 1)

-- The master, at its number, has the view already.
abbrev pub HasView : ℕ → ℕ → View → List MapView → Type 0
HasView master i view [] = Unit
HasView master i view (m ∷ ms) = (i ≡ master → m.view ≡ view) × HasView master (i + 1) view ms

jump-IsSynced :
    (master i : ℕ) (view : View) (ms : List MapView)
    → HasView master i view ms
    → let moved = jump_to master i view (off ms) in
      All (IsSynced view) (on moved.maps) × (moved.nested ≡ 0)
unfolding jump_to off on
jump-IsSynced master i view [] h = (tt, refl)
jump-IsSynced master i view (m ∷ ms) h =
    let (all, nested) = jump-IsSynced master (i + 1) view ms h.1 in
    elim (Bool-cases (i == master)) [
      | inl e ↦ rw e (((h.0 (ground arith), refl), all), nested)
      | inr e ↦ rw e (((refl, refl), all), omega (arith, nested))
    ]

-- When one map has moved, all maps show its view, each listener is on exactly once again, and none of
-- them was called by the movements of the others.
pub sync-IsSynced :
    (master : ℕ) (view : View) (maps : List MapView)
    → HasView master 0 view maps
    → All (IsSynced view) (sync master view maps).maps × ((sync master view maps).nested ≡ 0)
unfolding sync
sync-IsSynced master view maps h = jump-IsSynced master 0 view maps h
