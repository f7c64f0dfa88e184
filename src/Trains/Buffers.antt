-- ===== src/Trains/Buffers.antt =====
-- The byte buffers of `VertexAttributes` and `ColorAttributes` in ui/web/js/railviz/trains.js. A
-- colour's missing byte is zero, as in a new array.
pub mod Layout
use motis.Prelude.{
  ℕ, zero, suc, ◌+◌, ◌*◌, Bool, true, false, not, ◌||◌, List, [], ◌∷◌, Option, none, some, ◌==◌,
  if◌then◌else◌, length, set, replicate,
}
use mathlib.Core.Option
use motis.Model.Train.{Train}
use motis.Trains.Colors.{Color, get_category_color, get_delay_color, train_index_to_pick_color}

pub record VertexAttributes : Type 0 where
  pub train_count : Option ℕ
  pub buffer_dirty : Bool
  -- the buffer of the graphics card
  pub buffer : List ℕ

abbrev pub set_vertex_data : List Train → VertexAttributes → VertexAttributes
set_vertex_data trains v = record v { train_count = some (length trains); buffer_dirty = true }

-- The loop of `update`, over the trains that are left.
unfoldable pub vertex_data : ℕ → List ℕ
vertex_data zero = []
vertex_data (suc n) = 0 ∷ 1 ∷ 2 ∷ 1 ∷ 2 ∷ 3 ∷ vertex_data n

abbrev pub is_zero : Option ℕ → Bool
is_zero none = true
is_zero (some n) = n == 0

-- `count` is the length of the script's `trains`.
unfoldable pub update_vertices : ℕ → VertexAttributes → VertexAttributes
update_vertices count v =
    if not v.buffer_dirty || is_zero v.train_count
    then v
    else record v { buffer = vertex_data count; buffer_dirty = false }

pub record ColorAttributes : Type 0 where
  pub trains : Option (List Train)
  pub buffer_dirty : Bool
  -- the buffer of the graphics card
  pub buffer : List ℕ

abbrev pub set_color_data : List Train → ColorAttributes → ColorAttributes
set_color_data trains c = record c { trains = some trains; buffer_dirty = true }

-- Three consecutive bytes.
abbrev pub write_color : ℕ → Color → List ℕ → List ℕ
write_color offset c bytes =
    set (set (set bytes offset c.red) (offset + 1) c.green) (offset + 2) c.blue

-- The round of train `i`. `none` is the TypeError of a train without a category colour.
unfoldable pub write_train : ℕ → Train → List ℕ → Option (List ℕ)
write_train i train bytes =
    Option.map
      (λ category.
        write_color (i * 12 + 8) (train_index_to_pick_color i)
          (write_color (i * 12 + 4) category (write_color (i * 12) (get_delay_color train) bytes)))
      (get_category_color train)

unfoldable pub write_trains : ℕ → List Train → List ℕ → Option (List ℕ)
write_trains i [] bytes = some bytes
write_trains i (t ∷ ts) bytes =
    Option.bind (write_train i t bytes) λ written. write_trains (i + 1) ts written

unfoldable pub color_data : List Train → Option (List ℕ)
color_data trains = write_trains 0 trains (replicate (length trains * 12) 0)

unfoldable pub update_colors : ColorAttributes → Option ColorAttributes
update_colors c = elim c.trains [
  | none ↦ some c
  | some trains ↦
      if not c.buffer_dirty
      then some c
      else Option.map (λ bytes. record c { buffer = bytes; buffer_dirty = false })
          (color_data trains)
]
