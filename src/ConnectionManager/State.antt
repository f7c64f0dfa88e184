-- ===== src/ConnectionManager/State.antt =====
-- The state of ui/web/js/railviz/connectionmgr.js, with what it reaches of the other scripts: the
-- calls that are under way, the loading indicator, and what `Path.Connections.setData` was given.
use motis.Prelude.{
  ℕ, ◌+◌, Bool, List, [], ◌∷◌, ◌++◌, Option, none, some, String, ◌==◌, if◌then◌else◌,
}
use motis.Prelude.Int.{ℤ, pos, negsuc}
use motis.Model.Geometry.{Polyline}
use motis.Model.Train.{TripId, Train}
use motis.Model.Preprocess.{Response, PlacedStation}
use motis.Loading.{Loading, set_loading}
use motis.Api.{Request}
use motis.ConnectionManager.Walks.{Walk, WalkKey, WalkEntry, Router, Route, Coordinates}

pub record Section : Type 0 where
  pub departure_station_id : String
  pub arrival_station_id : String

pub record ConnectionTrain : Type 0 where
  pub trip : TripId
  pub sections : List Section

pub record Connection : Type 0 where
  pub id : ℤ
  pub trains : List ConnectionTrain
  pub walks : List Walk
  -- the trains of the trip response that belong to it
  pub resolved : List Train

-- A train of the trip response, with the ids of the connections that it belongs to.
pub record TripTrain : Type 0 where
  pub train : Train
  pub connection_ids : List ℤ

-- A polyline of the trip response; `trains` is missing until a train of a connection uses it.
pub record TripPolyline : Type 0 where
  pub polyline : Option Polyline
  pub trains : Option (List TripTrain)
  pub min_cid : Option ℤ

pub record LinkedTrips : Type 0 where
  pub stations : List PlacedStation
  pub trains : List TripTrain
  pub polylines : List TripPolyline

-- `tripData`: as it was received, or after `tripDataReceived` has gone through it.
pub data TripData : Type 0 where
  received : Response → TripData
  linked : LinkedTrips → TripData

-- What an answer is for. A walk's callback holds its object: its number in `walkData` as it was when
-- the call was made, which `generation` tells apart from later ones, and the walk.
pub data Purpose : Type 0 where
  for_trips : Purpose
  for_walk : ℕ → ℕ → Walk → Router → Purpose

pub record Call : Type 0 where
  pub call_id : ℕ
  pub purpose : Purpose
  pub request : Request

-- The arguments of a call of `Path.Connections.setData`.
pub record Shown : Type 0 where
  pub connections : List Connection
  pub trip_data : Option TripData
  pub walk_data : List WalkEntry

pub record Manager : Type 0 where
  pub connections : List Connection
  pub trip_data : Option TripData
  pub walk_data : List WalkEntry
  pub last_trips_request : Option ℕ
  pub trips_complete : Bool
  pub osrm_cache : List (WalkKey × Coordinates)
  pub ppr_cache : List (WalkKey × Route)
  -- how often `walkData` has been replaced
  pub generation : ℕ
  -- the other scripts
  pub last_call_id : ℕ
  pub pending : List Call
  pub loading : Loading
  pub shown : List Shown

-- `Main.setLoading(1)` and `API.sendRequest`, which numbers the calls from 1.
unfoldable pub send_request : Purpose → Request → Manager → Manager
send_request purpose request m =
    let call_id = m.last_call_id + 1 in
    record m {
      last_call_id = call_id;
      pending =
          m.pending ++ record { call_id = call_id; purpose = purpose; request = request } ∷ [];
      loading = set_loading (pos 1) m.loading;
    }

-- A call that has ended.
abbrev pub remove_call : ℕ → List Call → List Call
remove_call id [] = []
remove_call id (c ∷ cs) = if c.call_id == id then cs else c ∷ remove_call id cs

abbrev pub find_call : ℕ → List Call → Option Call
find_call id [] = none
find_call id (c ∷ cs) = if c.call_id == id then some c else find_call id cs

-- The callback of a call runs: the browser is done with it, and `setLoading(-1)` is called.
unfoldable pub end_call : ℕ → Manager → Manager
end_call id m = record m {
  pending = remove_call id m.pending;
  loading = set_loading (negsuc 0) m.loading;
}
