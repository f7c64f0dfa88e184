-- ===== src/ConnectionManager/Trips.antt =====
-- `trainToConnectionIds`, and what `tripDataReceived` of ui/web/js/railviz/connectionmgr.js does
-- with the trains of a response.
use motis.Prelude.{
  ℕ, zero, suc, Bool, true, ◌&&◌, List, [], ◌∷◌, ◌++◌, map, Option, none, some, str_eq,
  if◌then◌else◌, any, keep,
}
use motis.Prelude.Int.{ℤ}
use motis.Model.Train.{TripId, Train, PolylineRef}
use motis.Model.Preprocess.{Content}
use motis.ConnectionManager.Ids.{cid_combine, reduce_ids}
use motis.ConnectionManager.State.{
  Section, ConnectionTrain, Connection, TripTrain, TripPolyline, linked, Manager,
}

abbrev is_section_of : Train → Section → Bool
is_section_of t cs =
    str_eq cs.departure_station_id t.d_station_id && str_eq cs.arrival_station_id t.a_station_id

abbrev is_train_of : (TripId → TripId → Bool) → Train → ConnectionTrain → Bool
is_train_of deep_equal t ct =
    any (λ tt. deep_equal tt ct.trip) t.trip && any (is_section_of t) ct.sections

-- Whether `trainToConnectionIds` picks the connection.
abbrev pub uses_train : (TripId → TripId → Bool) → Train → Connection → Bool
uses_train deep_equal t c = any (is_train_of deep_equal t) c.trains

unfoldable pub train_to_connection_ids :
    (TripId → TripId → Bool) → List Connection → Train → List Connection
train_to_connection_ids deep_equal connections t = keep (uses_train deep_equal t) connections

-- `c.resolved.push(t)` for each connection that the train belongs to.
unfoldable pub resolve_in : (TripId → TripId → Bool) → Train → List Connection → List Connection
resolve_in deep_equal t connections =
    map (λ c. if uses_train deep_equal t c then record c { resolved = c.resolved ++ t ∷ [] } else c)
      connections

abbrev or_empty {ℓ} : {A : Type ℓ} → Option (List A) → List A
or_empty none = []
or_empty (some xs) = xs

unfoldable pub use_polyline : TripTrain → Option ℤ → TripPolyline → TripPolyline
use_polyline t min_cid p = record p {
  trains = some (or_empty p.trains ++ t ∷ []);
  min_cid = cid_combine p.min_cid min_cid;
}

abbrev pub update_at {ℓ} : {A : Type ℓ} → ℕ → (A → A) → List A → List A
update_at i f [] = []
update_at zero f (x ∷ xs) = f x ∷ xs
update_at (suc i) f (x ∷ xs) = x ∷ update_at i f xs

-- `t.polylines.forEach(…)`
unfoldable pub use_polylines :
    TripTrain → Option ℤ → List PolylineRef → List TripPolyline → List TripPolyline
use_polylines t min_cid [] polylines = polylines
use_polylines t min_cid (tp ∷ tps) polylines =
    use_polylines t min_cid tps (update_at tp.index (use_polyline t min_cid) polylines)

pub record Linking : Type 0 where
  pub connections : List Connection
  pub trains : List TripTrain
  pub polylines : List TripPolyline

abbrev trip_train : (TripId → TripId → Bool) → List Connection → Train → TripTrain
trip_train deep_equal connections t = record {
  train = t;
  connection_ids = map (λ c. c.id) (train_to_connection_ids deep_equal connections t);
}

-- The loop over the trains; at the end the trains without a connection are left out.
unfoldable pub link_trains :
    (TripId → TripId → Bool) → List Train → List Connection → List TripPolyline → Linking
link_trains deep_equal [] connections polylines = record {
  connections = connections;
  trains = [];
  polylines = polylines;
}
link_trains deep_equal (t ∷ ts) connections polylines =
    let tt = trip_train deep_equal connections t in
    let used = use_polylines tt (reduce_ids tt.connection_ids) t.polylines polylines in
    let next : List TripPolyline = elim tt.connection_ids [ [] ↦ polylines | id ∷ ids ↦ used ] in
    let rest = link_trains deep_equal ts (resolve_in deep_equal t connections) next in
    record {
      connections = rest.connections;
      trains = elim tt.connection_ids [ [] ↦ rest.trains | id ∷ ids ↦ tt ∷ rest.trains ];
      polylines = rest.polylines;
    }

unfoldable pub link_content : (TripId → TripId → Bool) → Content → Manager → Manager
link_content deep_equal content m =
    let links =
      link_trains deep_equal content.trains m.connections
        (map (λ p. record { polyline = p; trains = none; min_cid = none }) content.polylines) in
    record m {
      connections = links.connections;
      trip_data = some (
          linked (record {
            stations = content.stations;
            trains = links.trains;
            polylines = links.polylines;
          }));
      trips_complete = true;
    }
