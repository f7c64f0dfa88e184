-- ===== src/Trains/State.antt =====
-- The state of ui/web/js/railviz/trains.js, with `setData`, `preRender` and the trains that `render`
-- draws. The attributes share the train objects with the script's `trains`.
pub mod Drawing
use motis.Prelude.{ℕ, Bool, true, false, List, [], ◌∷◌, Option, none, some, if◌then◌else◌, length}
use mathlib.Core.Option
use motis.Model.Train.{Train}
use motis.Trains.Colors.{Pixel, pick_color_to_train_index}
use motis.Trains.Buffers.{
  VertexAttributes, ColorAttributes, set_vertex_data, set_color_data, update_vertices,
  update_colors,
}
use motis.Trains.Positions.{PositionAttributes, set_position_data, update_positions}

pub record Trains : Type 0 where
  pub trains : List Train
  pub initialized : Bool
  pub vertices : VertexAttributes
  pub positions : PositionAttributes
  pub colors : ColorAttributes
  pub use_category_color : Bool

abbrev or_empty : Option (List Train) → List Train
or_empty none = []
or_empty (some ts) = ts

unfoldable pub set_data : Option (List Train) → Trains → Trains
set_data new_trains s = record s { trains = or_empty new_trains; initialized = false }

unfoldable pub initialize : Trains → Trains
initialize s = if s.initialized then s else record s {
  initialized = true;
  vertices = set_vertex_data s.trains s.vertices;
  positions = set_position_data s.trains s.positions;
  colors = set_color_data s.trains s.colors;
}

unfoldable pub update_attributes : ℕ → Trains → Option Trains
update_attributes time s = Option.bind (update_positions time s.positions) λ positions.
    Option.map
      (λ colors. record s {
        trains = positions.trains;
        vertices = update_vertices (length s.trains) s.vertices;
        positions = positions;
        colors = colors;
      })
      (update_colors s.colors)

unfoldable pub pre_render : ℕ → Trains → Option Trains
pre_render time s = update_attributes time (initialize s)

-- The number of instances of the draw call; `none` if `render` returns before.
unfoldable pub drawn_instances : Trains → Option ℕ
drawn_instances s = elim s.trains [ [] ↦ none | t ∷ ts ↦ some (length s.trains) ]

unfoldable pub set_use_category_color : Bool → Trains → Trains
set_use_category_color use_category s = record s { use_category_color = use_category }

-- `none` also where `trains` is null: without data nothing has been drawn, so no pixel is opaque.
unfoldable pub get_picked_train_index : Option Pixel → Trains → Option ℕ
get_picked_train_index color s = elim s.colors.trains [
  | none ↦ none
  | some ts ↦ pick_color_to_train_index (length ts) color
]
