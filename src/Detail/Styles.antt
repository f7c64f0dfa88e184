-- ===== src/Detail/Styles.antt =====
-- The class and the highlight of the polylines in `setData` of ui/web/js/railviz/path_detail.js.
pub mod Least
use motis.Prelude.{
  ℕ, min, Bool, true, false, ◌&&◌, ◌||◌, List, [], ◌∷◌, map, Option, none, some, any, str_eq, ◌==◌,
  if◌then◌else◌,
}
use mathlib.Core.Option
use motis.Model.Train.{TripId, Train, PolylineRef, or_zero}
use motis.ConnectionManager.State.{Section, ConnectionTrain}
use motis.ConnectionManager.Trips.{update_at}
use motis.Detail.Walks.{DetailTrain}

-- What the function writes to a polyline's object; it stays there until the next call.
pub record Style : Type 0 where
  pub clasz : Option ℕ
  pub highlight : Bool

abbrev is_section_of : Train → Section → Bool
is_section_of t sec =
    str_eq sec.departure_station_id t.d_station_id && str_eq sec.arrival_station_id t.a_station_id

abbrev is_of_train : (TripId → TripId → Bool) → Train → TripId → ConnectionTrain → Bool
is_of_train deep_equal t this_trp filter_train =
    deep_equal filter_train.trip this_trp && any (is_section_of t) filter_train.sections

unfoldable pub is_highlighted : (TripId → TripId → Bool) → List ConnectionTrain → Train → Bool
is_highlighted deep_equal filter_trains t =
    any (λ this_trp. any (is_of_train deep_equal t this_trp) filter_trains) t.trip

-- `clasz || 12`
unfoldable pub or_other : Option ℕ → ℕ
or_other none = 12
or_other (some n) = if n == 0 then 12 else n

unfoldable pub add_style : ℕ → Bool → Style → Style
add_style clasz highlight s = record {
  clasz = some (min (or_other s.clasz) clasz);
  highlight = s.highlight || highlight;
}

unfoldable pub style_polylines : ℕ → Bool → List PolylineRef → List Style → List Style
style_polylines clasz highlight [] styles = styles
style_polylines clasz highlight (p ∷ ps) styles =
    style_polylines clasz highlight ps (update_at p.index (add_style clasz highlight) styles)

pub record Styled : Type 0 where
  pub trains : List DetailTrain
  pub styles : List Style

-- The loop over the trains.
unfoldable pub style_trains :
    (TripId → TripId → Bool) → List ConnectionTrain → List Train → List Style → Styled
style_trains deep_equal filter_trains [] styles = record { trains = []; styles = styles }
style_trains deep_equal filter_trains (t ∷ ts) styles =
    let highlight = is_highlighted deep_equal filter_trains t in
    let rest =
      style_trains deep_equal filter_trains ts
        (style_polylines (or_zero t.clasz) highlight t.polylines styles) in
    record {
      trains = record { train = t; highlight = highlight } ∷ rest.trains;
      styles = rest.styles;
    }
