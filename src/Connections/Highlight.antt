-- ===== src/Connections/Highlight.antt =====
-- `highlightConnections` of ui/web/js/railviz/path_connections.js.
pub mod Best
use motis.Prelude.{
  ℕ, ◌+◌, Bool, true, false, List, [], ◌∷◌, ◌++◌, map, Option, none, some, ◌==◌, if◌then◌else◌,
  find?,
}
use mathlib.Core.Option
use motis.Prelude.Int.{ℤ, abs_ℕ, eq_ℤ}
use motis.Model.Train.{Train}
use motis.ConnectionManager.Ids.{cid_combine}
use motis.ConnectionManager.Walks.{Walk}
use motis.ConnectionManager.State.{Connection}
use motis.Connections.Colors.{min_cid_to_color}
use motis.Connections.Features.{FeatureState, MapState, PathConnections, walk_feature_id}

-- A key of `minCIds`: the id of a feature, or NaN, which a `Map` holds equal to itself.
abbrev pub Key : Type 0
Key = Option ℕ

abbrev pub same_key : Key → Key → Bool
same_key none none = true
same_key none (some b) = false
same_key (some a) none = false
same_key (some a) (some b) = a == b

abbrev pub MinCids : Type 0
MinCids = List (Key × Option ℤ)

unfoldable pub get_min_cid : Key → MinCids → Option ℤ
get_min_cid k [] = none
get_min_cid k ((j, a) ∷ m) = if same_key j k then a else get_min_cid k m

unfoldable pub set_min_cid : Key → Option ℤ → MinCids → MinCids
set_min_cid k a [] = (k, a) ∷ []
set_min_cid k a ((j, b) ∷ m) = if same_key j k then (k, a) ∷ m else (j, b) ∷ set_min_cid k a m

abbrev same_cid : Option ℤ → Option ℤ → Bool
same_cid none none = true
same_cid none (some b) = false
same_cid (some a) none = false
same_cid (some a) (some b) = eq_ℤ a b

-- The body of the two inner loops.
unfoldable pub add_cid : ℤ → Key → MinCids → MinCids
add_cid cid k m =
    let curr = get_min_cid k m in
    let next = cid_combine curr (some cid) in if same_cid curr next then m else set_min_cid k next m

unfoldable pub add_cids : ℤ → List Key → MinCids → MinCids
add_cids cid [] m = m
add_cids cid (k ∷ ks) m = add_cids cid ks (add_cid cid k m)

train_keys : List Train → List Key
train_keys [] = []
train_keys (t ∷ ts) = map (λ i. some (abs_ℕ i)) t.indices ++ train_keys ts

-- The features of a connection: those of its trains' polylines, then those of its walks.
unfoldable pub connection_keys : Connection → List Key
unfolding train_keys
connection_keys c = train_keys c.resolved ++ map (λ w. Option.map walk_feature_id w.id) c.walks

unfoldable pub find_connection : ℤ → Option (List Connection) → Option Connection
find_connection cid none = none
find_connection cid (some connections) = find? (λ c. eq_ℤ c.id cid) connections

-- The loop over the ids that are to be highlighted; one without a connection is passed over.
unfoldable pub min_cids : Option (List Connection) → List ℤ → MinCids → MinCids
min_cids connections [] m = m
min_cids connections (cid ∷ cids) m =
    min_cids connections cids (elim (find_connection cid connections) [
      | none ↦ m
      | some c ↦ add_cids c.id (connection_keys c) m
    ])

abbrev states_of : MinCids → List FeatureState
states_of m = map (λ e. record { id = e.0; color = min_cid_to_color e.1 }) m

-- Without a map nothing is done; with no ids every highlight is taken away.
unfoldable pub highlight_connections : List ℤ → PathConnections → PathConnections
highlight_connections cids s = record s {
  map =
      Option.map {A = MapState}
        (λ m. record m { feature_states = states_of (min_cids s.connections cids []) }) s.map;
}
