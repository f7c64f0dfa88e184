-- ===== src/MapSync.antt =====
-- `syncMaps` and `moveToMapPosition` of ui/web/js/map.js. A map fires its "move" event within
-- `jumpTo`, and calls the listeners that are on at that moment.
pub mod Still
use motis.Prelude.{
  ℕ, zero, suc, ◌+◌, Bool, true, false, not, List, [], ◌∷◌, Option, none, some, ◌==◌, if◌then◌else◌,
}
use motis.Prelude.Int.{ℤ}
use motis.Model.Geometry.{LatLng}

pub record View : Type 0 where
  pub center : LatLng
  pub zoom : ℕ
  pub bearing : ℤ
  pub pitch : ℕ

pub record MapView : Type 0 where
  pub view : View
  -- how many times the listener of this map is registered
  pub listeners : ℕ

-- `on` and `off`.
unfoldable pub on : List MapView → List MapView
on [] = []
on (m ∷ ms) = record m { listeners = m.listeners + 1 } ∷ on ms

unfoldable pub off : List MapView → List MapView
off [] = []
off (m ∷ ms) = record m { listeners = 0 } ∷ off ms

-- The loop of `moveToMapPosition` over the maps from number `i` on, leaving out the master. A clone
-- whose listener is on would call `sync` in turn; `nested` counts those calls.
pub record Moved : Type 0 where
  pub maps : List MapView
  pub nested : ℕ

unfoldable pub jump_to : ℕ → ℕ → View → List MapView → Moved
jump_to master i view [] = record { maps = []; nested = 0 }
jump_to master i view (m ∷ ms) =
    let rest = jump_to master (i + 1) view ms in
    if i == master
    then record { maps = m ∷ rest.maps; nested = rest.nested }
    else record { maps = record m { view = view } ∷ rest.maps; nested = m.listeners + rest.nested }

unfoldable pub sync : ℕ → View → List MapView → Moved
sync master view maps =
    let moved = jump_to master 0 view (off maps) in record moved { maps = on moved.maps }
