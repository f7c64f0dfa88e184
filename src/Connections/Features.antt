-- ===== src/Connections/Features.antt =====
-- `init`, `setData` and `setEnabled` of ui/web/js/railviz/path_connections.js.
pub mod Showing
use motis.Prelude.{
  ℕ, zero, suc, ◌+◌, Bool, true, false, ◌||◌, List, [], ◌∷◌, ◌++◌, Option, none, some, String,
  if◌then◌else◌,
}
use mathlib.Core.Option
use motis.Prelude.Int.{ℤ}
use motis.Model.Geometry.{LatLng, Polyline}
use motis.Model.Walks.{doubles_to_lng_lats}
use motis.ConnectionManager.Walks.{WalkEntry}
use motis.ConnectionManager.State.{Connection, TripPolyline, TripData, received, linked}
use motis.Connections.Colors.{sort_key, min_cid_to_color}

-- `flipped` changes the order of a coordinate's numbers only, which a record does not have.
pub record Feature : Type 0 where
  pub id : ℕ
  pub trip : Bool
  -- `none` is NaN
  pub sort_key : Option ℤ
  pub color : Option String
  pub coordinates : List LatLng

-- What `setFeatureState` sets for a feature; the id is NaN for a walk without an id.
pub record FeatureState : Type 0 where
  pub id : Option ℕ
  pub color : Option String

pub record MapState : Type 0 where
  pub source : List Feature
  pub visible : Bool
  pub feature_states : List FeatureState

pub record PathConnections : Type 0 where
  pub map : Option MapState
  pub features : Option (List Feature)
  pub enabled : Bool
  pub connections : Option (List Connection)
  pub trip_data : Option TripData
  pub walk_data : Option (List WalkEntry)

unfoldable pub trip_feature : ℕ → Option ℤ → Polyline → Feature
trip_feature i min_cid p = record {
  id = i;
  trip = true;
  sort_key = Option.map sort_key min_cid;
  color = min_cid_to_color min_cid;
  coordinates = p.coordinates;
}

-- The loop over the polylines, from number `i` on. `none` is the TypeError of a polyline without
-- coordinates that a train uses.
unfoldable pub trip_features : ℕ → List TripPolyline → Option (List Feature)
trip_features i [] = some []
trip_features i (p ∷ ps) = elim p.trains [
  | none ↦ trip_features (i + 1) ps
  | some trains ↦ Option.bind p.polyline λ polyline.
      Option.map (λ fs. trip_feature i p.min_cid polyline ∷ fs) (trip_features (i + 1) ps)
]

-- The polylines of a response as it was received are texts, which have no trains.
unfoldable pub trip_data_features : Option TripData → Option (List Feature)
trip_data_features none = some []
trip_data_features (some (received response)) = some []
trip_data_features (some (linked trips)) = trip_features 0 trips.polylines

-- `1e9 + w.id`
unfoldable pub walk_feature_id : ℕ → ℕ
walk_feature_id i = 1000000000 + i

abbrev pub walk_feature : WalkEntry → List LatLng → Feature
walk_feature w coords = record {
  id = walk_feature_id w.id;
  trip = false;
  sort_key = Option.map sort_key w.min_cid;
  color = min_cid_to_color w.min_cid;
  coordinates = coords;
}

unfoldable pub cons_feature : WalkEntry → List LatLng → List Feature → List Feature
cons_feature w [] fs = fs
cons_feature w (ll ∷ coords) fs = walk_feature w (ll ∷ coords) ∷ fs

-- A walk without a polyline, or with an empty one, has no feature, and neither has one that failed.
unfoldable pub walk_polyline : WalkEntry → List LatLng
walk_polyline w =
    if w.error then [] else elim w.polyline [ none ↦ [] | some coords ↦ doubles_to_lng_lats coords ]

unfoldable pub walk_features : List WalkEntry → List Feature
unfolding cons_feature walk_polyline
walk_features [] = []
walk_features (w ∷ ws) = cons_feature w (walk_polyline w) (walk_features ws)

abbrev pub or_empty {ℓ} : {A : Type ℓ} → Option (List A) → List A
or_empty none = []
or_empty (some xs) = xs

unfoldable pub features_of : Option TripData → Option (List WalkEntry) → Option (List Feature)
features_of trip_data walk_data =
    Option.map (λ fs. fs ++ walk_features (or_empty walk_data)) (trip_data_features trip_data)

abbrev set_source : List Feature → Option MapState → Option MapState
set_source fs map = Option.map {A = MapState} (λ m. record m { source = fs }) map

unfoldable pub set_data :
    List Connection
    → Option TripData
    → Option (List WalkEntry)
    → PathConnections
    → Option PathConnections
set_data connections trip_data walk_data s =
    Option.map
      (λ fs. record s {
        features = some fs;
        connections = some connections;
        trip_data = trip_data;
        walk_data = walk_data;
        map = set_source fs s.map;
      })
      (features_of trip_data walk_data)

unfoldable pub set_enabled : Bool → PathConnections → PathConnections
set_enabled b s = record s {
  map = Option.map {A = MapState} (λ m. record m { visible = b }) s.map;
  enabled = b;
}

-- The map is new, and has the source and the layer that `init` adds.
unfoldable pub init : PathConnections → PathConnections
init s = set_enabled s.enabled (record s {
  map = some (record { source = or_empty s.features; visible = true; feature_states = [] });
})
