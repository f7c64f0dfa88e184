-- ===== src/Connections/Picking.antt =====
-- `getPickedConnections` of ui/web/js/railviz/path_connections.js.
pub mod Drawn
use motis.Prelude.{
  ℕ, ◌-◌, Bool, true, false, List, [], ◌∷◌, Option, none, some, String, str_eq, get_elem?,
  if◌then◌else◌, find?, ltb,
}
use mathlib.Core.Option
use motis.ConnectionManager.Walks.{WalkEntry}
use motis.ConnectionManager.State.{TripTrain, TripData, received, linked}
use motis.Connections.Features.{PathConnections}

-- A feature that the map has rendered under the mouse.
pub record Rendered : Type 0 where
  pub layer : String
  pub trip : Bool
  pub id : ℕ

-- The result: null, the trains of a polyline, or a walk.
pub data Picked : Type 0 where
  nothing : Picked
  trains : Option (List TripTrain) → Picked
  walk : Option WalkEntry → Picked

-- `tripData.polylines[id].trains`; `none` is a TypeError.
unfoldable pub picked_trains : Option TripData → ℕ → Option Picked
picked_trains none id = none
picked_trains (some (received response)) id =
    Option.map (λ text. trains none) (get_elem? response.polylines id)
picked_trains (some (linked trips)) id =
    Option.map (λ p. trains p.trains) (get_elem? trips.polylines id)

-- `walkData[id - 1e9]`; an index below 0 has no walk.
unfoldable pub picked_walk : Option (List WalkEntry) → ℕ → Option Picked
picked_walk none id = none
picked_walk (some walks) id =
    some (walk (if ltb id 1000000000 then none else get_elem? walks (id - 1000000000)))

unfoldable pub picked : Rendered → PathConnections → Option Picked
picked f s = if f.trip then picked_trains s.trip_data f.id else picked_walk s.walk_data f.id

unfoldable pub get_picked_connections : List Rendered → PathConnections → Option Picked
get_picked_connections features s =
    elim (find? (λ e. str_eq e.layer "railviz-connections-line") features) [
      | none ↦ some nothing
      | some f ↦ picked f s
    ]
