-- ===== src/Main/State.antt =====
-- The state of ui/web/js/railviz/main.js and of the scripts that it controls. The trains that are
-- drawn are those of the renderer's state: a train that is shown again begins without a position.
use motis.Prelude.{ℕ, Bool, Option, List}
use motis.Prelude.Int.{ℤ}
use motis.Model.Geometry.{LatLng}
use motis.Model.Preprocess.{Content}
use motis.Loading.{Loading}
use motis.Api.{Request}
use motis.Layers.{Base, Extra}
use motis.Detail.Data.{DetailFilter, DetailTrips, Detail}
use motis.Connections.Features.{PathConnections}
use motis.Render.{Render}

pub record MapInfo : Type 0 where
  pub zoom : ℕ
  pub north_west : LatLng
  pub south_east : LatLng

-- A call of `API.sendRequest`, with the callback's `onlyFilteredTrips`.
pub record Call : Type 0 where
  pub call_id : ℕ
  pub only_filtered_trips : Bool
  pub request : Request

pub record Main : Type 0 where
  pub map_info : Option MapInfo
  -- milliseconds
  pub time_offset : ℤ
  pub detail_filter : Option DetailFilter
  pub full_data : Option Content
  pub detail_trips : Option DetailTrips
  pub showing_detail_data : Bool
  pub last_trains_request : Option ℕ
  pub last_trains_count : ℕ
  pub last_trips_request : Option ℕ
  pub use_fps_limiter : Bool
  pub trains_enabled : Bool
  -- the other scripts
  pub last_call_id : ℕ
  pub calls : List Call
  pub loading : Loading
  pub base : Base
  pub extra : Extra
  pub detail : Detail
  pub connections : PathConnections
  pub render : Render
