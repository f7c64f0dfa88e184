-- ===== src/Layers.antt =====
-- ui/web/js/railviz/path_base.js and ui/web/js/railviz/path_extra.js: the layers of the prepared
-- tiles, and of the polylines that the tiles do not have.
use motis.Prelude.{Bool, true, List, [], ◌∷◌, ℕ, Option, none, some, get_elem?}
use mathlib.Core.Option
use motis.Model.Geometry.{LatLng, Polyline}
use motis.Model.Preprocess.{Content}

-- `visible` is `none` as long as there is no map.
pub record Base : Type 0 where
  pub visible : Option Bool
  pub enabled : Bool

unfoldable pub set_base_enabled : Bool → Base → Base
set_base_enabled b s = record { visible = Option.map (λ v. b) s.visible; enabled = b }

unfoldable pub init_base : Base → Base
init_base s = set_base_enabled s.enabled (record s { visible = some true })

pub record Source : Type 0 where
  pub lines : List (List LatLng)
  pub visible : Bool

pub record Extra : Type 0 where
  pub map : Option Source
  pub lines : Option (List (List LatLng))
  pub enabled : Bool

-- The loop over `extras`; `none` is the TypeError of an index past the end, or of a polyline without
-- coordinates.
unfoldable pub extra_lines : List ℕ → List (Option Polyline) → Option (List (List LatLng))
extra_lines [] polylines = some []
extra_lines (e ∷ es) polylines = Option.bind (get_elem? polylines e) λ slot.
    Option.bind slot λ p. Option.map (λ lines. p.coordinates ∷ lines) (extra_lines es polylines)

abbrev or_empty {ℓ} : {A : Type ℓ} → Option (List A) → List A
or_empty none = []
or_empty (some xs) = xs

unfoldable pub show_lines : List (List LatLng) → Extra → Extra
show_lines lines s = record s {
  lines = some lines;
  map = Option.map {A = Source} (λ m. record m { lines = lines }) s.map;
}

unfoldable pub set_extra_data : Option Content → Extra → Option Extra
set_extra_data none s = some s
set_extra_data (some content) s =
    Option.map (λ lines. show_lines lines s) (extra_lines content.extras content.polylines)

unfoldable pub set_extra_enabled : Bool → Extra → Extra
set_extra_enabled b s = record s {
  map = Option.map {A = Source} (λ m. record m { visible = b }) s.map;
  enabled = b;
}

unfoldable pub init_extra : Extra → Extra
init_extra s =
    set_extra_enabled s.enabled
      (record s { map = some (record { lines = or_empty s.lines; visible = true }) })
