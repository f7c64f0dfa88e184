-- ===== src/External.antt =====
-- What the scripts call of other projects, as parameters: `decode` of ui/web/external_lib/polyline.js
-- at precision 6, `MercatorCoordinate.fromLngLat` of mapbox-gl, which takes a longitude and a
-- latitude, and `deepEqual` of ui/web/external_lib/deep-equal.js on trip ids and on lists of
-- connection ids.
use motis.Prelude.{◌≡◌, ◌↔◌, Bool, true, List, String}
use motis.Prelude.Int.{ℤ}
use motis.Model.Geometry.{LatLng, Point}
use motis.Model.Train.{TripId}

pub record External : Type 0 where
  pub decode : String → List LatLng
  pub from_lng_lat : ℤ → ℤ → Point
  pub deep_equal : TripId → TripId → Bool

-- `deepEqual` decides whether two trip ids have equal fields.
abbrev pub DecidesEquality : External → Type 0
DecidesEquality ext = (a b : TripId) → (ext.deep_equal a b ≡ true) ↔ (a ≡ b)
