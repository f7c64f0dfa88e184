-- ===== src/Detail/Walks.antt =====
-- `loadAdjustedWalk` of ui/web/js/railviz/path_detail.js. A walk is changed in place, so its new
-- polyline is a result.
pub mod Adjusted
use motis.Prelude.{
  ℕ, ◌-◌, ◌+◌, Bool, true, false, ◌&&◌, ◌||◌, not, List, [], ◌∷◌, ◌++◌, Option, none, some, String,
  str_eq, get_elem?, length, ltb, if◌then◌else◌,
}
use mathlib.Core.Option
use motis.Prelude.Int.{ℤ, eq_ℤ}
use motis.Model.Geometry.{LatLng}
use motis.Model.Train.{Train, first_coordinate, last_coordinate}

-- A train of the trips, and whether it is highlighted.
pub record DetailTrain : Type 0 where
  pub train : Train
  pub highlight : Bool

-- The `reduce` over the trains; `none` is the TypeError of a train without coordinates.
unfoldable pub ends_at :
    (DetailTrain → Bool) → (Train → Option LatLng) → List DetailTrain → Option (List LatLng)
ends_at p coordinate [] = some []
ends_at p coordinate (t ∷ ts) =
    let rest = ends_at p coordinate ts in
    if p t && t.highlight
    then (Option.bind (coordinate t.train) λ c. Option.map (λ cs. c ∷ cs) rest)
    else rest

-- `wp[i] != a`, where a number that is missing differs from all.
abbrev pub differs : Option ℤ → ℤ → Bool
differs none a = true
differs (some b) a = not (eq_ℤ b a)

unfoldable pub add_start : LatLng → List ℤ → List ℤ
add_start c wp =
    if differs (get_elem? wp 0) c.lat || differs (get_elem? wp 1) c.lng
    then c.lat ∷ c.lng ∷ wp
    else wp

-- The number at `length - k`; a negative index has none.
abbrev pub from_end : ℕ → List ℤ → Option ℤ
from_end k wp = if ltb (length wp) k then none else get_elem? wp (length wp - k)

unfoldable pub add_end : LatLng → List ℤ → List ℤ
add_end c wp =
    if differs (from_end 2 wp) c.lat || differs (from_end 1 wp) c.lng
    then wp ++ c.lat ∷ c.lng ∷ []
    else wp

-- Only a single train decides.
unfoldable pub adjust : (LatLng → List ℤ → List ℤ) → List LatLng → List ℤ → List ℤ
adjust add [] wp = wp
adjust add (c ∷ []) wp = add c wp
adjust add (c ∷ d ∷ cs) wp = wp

unfoldable pub arrivals : String → List DetailTrain → Option (List LatLng)
arrivals station ts = ends_at (λ t. str_eq t.train.a_station_id station) last_coordinate ts

unfoldable pub departures : String → List DetailTrain → Option (List LatLng)
departures station ts = ends_at (λ t. str_eq t.train.d_station_id station) first_coordinate ts

unfoldable pub adjust_walk : List LatLng → List LatLng → List ℤ → List ℤ
adjust_walk arriving departing wp = adjust add_end departing (adjust add_start arriving wp)

unfoldable pub load_adjusted_walk : String → String → List DetailTrain → List ℤ → Option (List ℤ)
load_adjusted_walk from to ts wp =
    Option.bind (arrivals from ts)
      λ arriving. Option.map (λ departing. adjust_walk arriving departing wp) (departures to ts)
