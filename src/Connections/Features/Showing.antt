-- ===== src/Connections/Features/Showing.antt =====
-- Whatever happens to ui/web/js/railviz/path_connections.js, its map shows the last features.
use motis.Prelude.{
  ◌≡◌, refl, ap, Bool, true, false, List, [], ◌∷◌, Option, none, some, Holds, Holds-some,
  Option-cases, inl, inr,
}
use mathlib.Core.Option
use motis.ConnectionManager.Walks.{WalkEntry}
use motis.ConnectionManager.State.{Connection, TripData}
use motis.Connections.Features.{
  Feature, MapState, PathConnections, or_empty, features_of, set_data, set_enabled, init,
}

-- The calls of the script's functions, in any order.
pub data Operation : Type 0 where
  map_ready : Operation
  data_set : List Connection → Option TripData → Option (List WalkEntry) → Operation
  enabled_set : Bool → Operation

unfoldable pub perform : Operation → PathConnections → Option PathConnections
perform map_ready s = some (init s)
perform (data_set connections trip_data walk_data) s = set_data connections trip_data walk_data s
perform (enabled_set b) s = some (set_enabled b s)

unfoldable pub perform_all : List Operation → PathConnections → Option PathConnections
perform_all [] s = some s
perform_all (o ∷ os) s = Option.bind (perform o s) λ s'. perform_all os s'

-- The features of the data that are set last, whether the layer is enabled last, and whether there is a
-- map, from what there was before.
abbrev pub last_features : List Operation → Option (List Feature) → Option (List Feature)
last_features [] fs = fs
last_features (map_ready ∷ os) fs = last_features os fs
last_features (data_set connections trip_data walk_data ∷ os) fs =
    last_features os (features_of trip_data walk_data)
last_features (enabled_set b ∷ os) fs = last_features os fs

abbrev pub last_enabled : List Operation → Bool → Bool
last_enabled [] enabled = enabled
last_enabled (map_ready ∷ os) enabled = last_enabled os enabled
last_enabled (data_set connections trip_data walk_data ∷ os) enabled = last_enabled os enabled
last_enabled (enabled_set b ∷ os) enabled = last_enabled os b

abbrev pub has_map : List Operation → Bool → Bool
has_map [] mapped = mapped
has_map (map_ready ∷ os) mapped = has_map os true
has_map (data_set connections trip_data walk_data ∷ os) mapped = has_map os mapped
has_map (enabled_set b ∷ os) mapped = has_map os mapped

abbrev pub MapShows : Bool → Option (List Feature) → Bool → Option MapState → Type 0
MapShows true features enabled none = ⊥
MapShows true features enabled (some m) = (m.source ≡ or_empty features) × (m.visible ≡ enabled)
MapShows false features enabled none = Unit
MapShows false features enabled (some m) = ⊥

-- The script keeps these features and this setting, and the map, if it is there, shows them.
pub record IsShown (mapped : Bool) (features : Option (List Feature)) (enabled : Bool)
    (s : PathConnections) : Type 0 where
  pub keeps : s.features ≡ features
  pub is_enabled : s.enabled ≡ enabled
  pub shows : MapShows mapped features enabled s.map

set_source-MapShows :
    (mapped : Bool) (fs : List Feature) (features : Option (List Feature)) (enabled : Bool)
    (m : Option MapState)
    → MapShows mapped features enabled m
    → MapShows mapped
        (some fs)
        enabled
        (Option.map {A = MapState} (λ n. record n { source = fs }) m)
set_source-MapShows true fs features enabled none h = h
set_source-MapShows true fs features enabled (some m) h = (refl, h.1)
set_source-MapShows false fs features enabled none h = h
set_source-MapShows false fs features enabled (some m) h = h

set_visible-MapShows :
    (mapped b : Bool) (features : Option (List Feature)) (enabled : Bool) (m : Option MapState)
    → MapShows mapped features enabled m
    → MapShows mapped features b (Option.map {A = MapState} (λ n. record n { visible = b }) m)
set_visible-MapShows true b features enabled none h = h
set_visible-MapShows true b features enabled (some m) h = (h.0, refl)
set_visible-MapShows false b features enabled none h = h
set_visible-MapShows false b features enabled (some m) h = h

init-IsShown :
    (mapped : Bool) (features : Option (List Feature)) (enabled : Bool) (s : PathConnections)
    → IsShown mapped features enabled s
    → IsShown true features enabled (init s)
unfolding init set_enabled
init-IsShown mapped features enabled s h = record {
  keeps = h.keeps;
  is_enabled = h.is_enabled;
  shows = (ap or_empty h.keeps, h.is_enabled);
}

set_enabled-IsShown :
    (mapped b : Bool) (features : Option (List Feature)) (enabled : Bool) (s : PathConnections)
    → IsShown mapped features enabled s
    → IsShown mapped features b (set_enabled b s)
unfolding set_enabled
set_enabled-IsShown mapped b features enabled s h = record {
  keeps = h.keeps;
  is_enabled = refl;
  shows = set_visible-MapShows mapped b features enabled s.map h.shows;
}

set_data-IsShown :
    (mapped : Bool) (features : Option (List Feature)) (enabled : Bool) (cs : List Connection)
    (trips : Option TripData) (walks : Option (List WalkEntry)) (s : PathConnections)
    → IsShown mapped features enabled s
    → Holds (IsShown mapped (features_of trips walks) enabled) (set_data cs trips walks s)
unfolding set_data
set_data-IsShown mapped features enabled cs trips walks s h =
    elim (Option-cases (features_of trips walks)) [
      | inl e ↦ rw e tt
      | inr (fs, e) ↦ rw e (record {
        keeps = refl;
        is_enabled = h.is_enabled;
        shows = set_source-MapShows mapped fs features enabled s.map h.shows;
      })
    ]

-- Whether the map comes before the data or after it, and whatever is set in which order: if no
-- TypeError ends the calls, then the map, if it has come, shows the features of the data that were set
-- last, and its layer is visible exactly if it was enabled last.
pub perform_all-IsShown :
    (os : List Operation) (mapped : Bool) (features : Option (List Feature)) (enabled : Bool)
    (s : PathConnections)
    → IsShown mapped features enabled s
    → Holds
        (IsShown (has_map os mapped) (last_features os features) (last_enabled os enabled))
        (perform_all os s)
unfolding perform_all perform Option.bind
perform_all-IsShown [] mapped features enabled s h = h
perform_all-IsShown (map_ready ∷ os) mapped features enabled s h =
    perform_all-IsShown os true features enabled (init s) (init-IsShown mapped features enabled s h)
perform_all-IsShown (enabled_set b ∷ os) mapped features enabled s h =
    perform_all-IsShown os mapped features b (set_enabled b s)
      (set_enabled-IsShown mapped b features enabled s h)
perform_all-IsShown (data_set cs trips walks ∷ os) mapped features enabled s h =
    elim (Option-cases (set_data cs trips walks s)) [
      | inl e ↦ rw e tt
      | inr (s', e) ↦ rw e (
          perform_all-IsShown os mapped (features_of trips walks) enabled s' (
            Holds-some (IsShown mapped (features_of trips walks) enabled)
              (set_data cs trips walks s)
              (set_data-IsShown mapped features enabled cs trips walks s h) e))
    ]
