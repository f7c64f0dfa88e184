-- ===== src/ConnectionManager/Walks.antt =====
-- The walks of ui/web/js/railviz/connectionmgr.js: `walkId`, and the grouping in `requestWalks`.
pub mod Grouping
use motis.Prelude.{
  ℕ, zero, suc, ◌+◌, ◌≡◌, Bool, true, false, ◌&&◌, ◌||◌, not, List, [], ◌∷◌, ◌++◌, map, Option,
  none, some, String, str_eq, ◌==◌, if◌then◌else◌, length,
}
use mathlib.Core.Option
use motis.Prelude.Int.{ℤ, eq_ℤ}
use motis.Model.Geometry.{LatLng}
use motis.Model.Train.{Station}
use motis.ConnectionManager.Ids.{reduce_ids}

-- A polyline of a walk: latitudes and longitudes in turn.
abbrev pub Coordinates : Type 0
Coordinates = List ℤ

pub record Walk : Type 0 where
  -- set by `requestWalks`
  pub id : Option ℕ
  pub departure_station : Station
  pub arrival_station : Station
  pub mumo_type : String
  pub duration : ℕ
  pub accessibility : ℕ
  pub polyline : Option Coordinates

-- `walkId` gives the JSON text of these fields; two texts are equal exactly if all fields are.
pub record WalkKey : Type 0 where
  pub mumo_type : String
  pub duration : ℕ
  pub accessibility : ℕ
  pub start : LatLng
  pub finish : LatLng

unfoldable pub walk_id : Walk → WalkKey
walk_id walk = record {
  mumo_type = walk.mumo_type;
  duration = walk.duration;
  accessibility = walk.accessibility;
  start = walk.departure_station.position;
  finish = walk.arrival_station.position;
}

abbrev pub same_place : LatLng → LatLng → Bool
same_place a b = eq_ℤ a.lat b.lat && eq_ℤ a.lng b.lng

unfoldable pub same_key : WalkKey → WalkKey → Bool
same_key a b =
    str_eq a.mumo_type b.mumo_type
    && (a.duration == b.duration
        && (a.accessibility == b.accessibility
            && (same_place a.start b.start && same_place a.finish b.finish)))

pub data Router : Type 0 where
  osrm ppr : Router

-- A route of the PPR service, and the answer of OSRM.
pub record Route : Type 0 where
  pub duration : Option ℕ
  pub accessibility : Option ℕ
  pub path : Coordinates

-- An object of `walkData`.
pub record WalkEntry : Type 0 where
  pub id : ℕ
  pub walk : Walk
  pub connection_ids : List ℤ
  pub polyline : Option Coordinates
  pub error : Bool
  pub min_cid : Option ℤ
  pub router_type : Option Router
  pub osrm_route : Option Coordinates
  pub ppr_route : Option Route

abbrev pub or_else {ℓ} : {A : Type ℓ} → Option A → Option A → Option A
or_else none b = b
or_else (some a) b = some a

unfoldable pub new_entry : ℕ → Walk → WalkEntry
new_entry id walk = record {
  id = id;
  walk = walk;
  connection_ids = [];
  polyline = none;
  error = false;
  min_cid = none;
  router_type = none;
  osrm_route = none;
  ppr_route = none;
}

-- `w.connectionIds.push(connection.id)`, and the polyline if there is none yet.
unfoldable pub add_connection : ℤ → Walk → WalkEntry → WalkEntry
add_connection connection_id walk w = record w {
  connection_ids = w.connection_ids ++ connection_id ∷ [];
  polyline = or_else w.polyline walk.polyline;
}

pub record Grouped : Type 0 where
  pub entries : List WalkEntry
  pub index : ℕ

-- One round of the inner loop, over the entries from number `i` on: the walk goes to the entry of
-- its key, or to a new one at the end. `index` is the id that the walk gets.
unfoldable pub add_walk : ℕ → ℤ → Walk → List WalkEntry → Grouped
add_walk i connection_id walk [] = record {
  entries = add_connection connection_id walk (new_entry i walk) ∷ [];
  index = i;
}
add_walk i connection_id walk (w ∷ ws) =
    let rest = add_walk (i + 1) connection_id walk ws in
    if same_key (walk_id w.walk) (walk_id walk)
    then record { entries = add_connection connection_id walk w ∷ ws; index = w.id }
    else record { entries = w ∷ rest.entries; index = rest.index }

pub record WithIds : Type 0 where
  pub entries : List WalkEntry
  pub walks : List Walk

-- The walks of one connection.
unfoldable pub add_walks : ℤ → List Walk → List WalkEntry → WithIds
add_walks connection_id [] entries = record { entries = entries; walks = [] }
add_walks connection_id (walk ∷ walks) entries =
    let added = add_walk 0 connection_id walk entries in
    let rest = add_walks connection_id walks added.entries in
    record { entries = rest.entries; walks = record walk { id = some added.index } ∷ rest.walks }

unfoldable pub set_min_cid : WalkEntry → WalkEntry
set_min_cid w = record w { min_cid = reduce_ids w.connection_ids }
