-- ===== src/Tests/TrainsRuns.antt =====
-- Frames of ui/web/js/railviz/trains.js and ui/web/js/railviz/render.js.
use motis.Prelude.{
  ℕ, ◌≡◌, refl, true, false, List, [], ◌∷◌, none, some, All, Holds, length, get_elem?, arith, inl,
}
use mathlib.Core.Option
use motis.Prelude.Int.{pos}
use motis.Model.Train.{Train}
use motis.Trains.Colors.{
  get_category_color, Color, train_index_to_pick_color, pick_color_to_train_index,
}
use motis.Trains.Colors.Pick.{opaque_pixel, pick_color-round_trip}
use motis.Trains.Buffers.{write_train, write_trains, vertex_data, color_data}
use motis.Trains.Buffers.Layout.{HasTrain, color_data-HasTrain}
use motis.Trains.Positions.{Anchor, PositionAttributes, compute_anchor, update_positions}
use motis.Trains.Positions.Synced.{IsSynced, SyncedAt, update_positions-IsSynced}
use motis.Trains.Positions.Total.{IsGood, update_positions-some}
use motis.Trains.State.{Trains, set_data, pre_render}
use motis.Trains.State.Drawing.{AreUpdated, pre_render-set_data}
use motis.Render.{Render}
use motis.Tests.Data.{train, train-IsLaidOut}

train-IsGood : IsGood 0 train
train-IsGood = record {
  laid_out = train-IsLaidOut;
  takes_time = omega arith;
  placed = inl (refl, refl);
}

abbrev positions : PositionAttributes
positions = record {
  trains = train ∷ [];
  position_data = [];
  progress_data = [];
  anchor = none;
  positions = [];
  progresses = [];
}

abbrev trains : Trains
trains = record {
  trains = [];
  initialized = false;
  vertices = record { train_count = none; buffer_dirty = false; buffer = [] };
  positions = positions;
  colors = record { trains = none; buffer_dirty = false; buffer = [] };
  use_category_color = true;
}

pick_color-round_trip_example :
    pick_color_to_train_index 70000 (some (opaque_pixel (train_index_to_pick_color 66000)))
    ≡ some 66000
pick_color-round_trip_example = pick_color-round_trip 70000 66000 (omega arith) (omega arith)

abbrev color_bytes : List ℕ
color_bytes = Option.get_or (color_data (train ∷ [])) []

color_data-HasTrain_example :
    (length color_bytes ≡ 12)
    × ((i : ℕ) (t : Train)
        → get_elem? (train ∷ []) i ≡ some t
        → (category : Color) × HasTrain color_bytes i t category)
unfolding color_data write_trains write_train get_category_color Option.bind
color_data-HasTrain_example = color_data-HasTrain (train ∷ []) color_bytes refl

update_positions-IsSynced_example : Holds IsSynced (update_positions 9 positions)
update_positions-IsSynced_example = update_positions-IsSynced 9 positions tt

update_positions-some_example :
    (q : PositionAttributes) × (update_positions 9 positions ≡ some q) × All (IsGood 9) q.trains
update_positions-some_example = update_positions-some 0 9 positions (omega arith) (train-IsGood, tt)

pre_render-set_data_example :
    (s : Trains) × (pre_render 9 (set_data (some (train ∷ [])) trains) ≡ some s)
    × (s.vertices.buffer ≡ vertex_data 1)
    × (color_data (train ∷ []) ≡ some s.colors.buffer)
    × (s.trains ≡ s.positions.trains)
    × AreUpdated 9 (train ∷ []) s.positions.trains
    × ((anchor : Anchor) × (compute_anchor (train ∷ []) ≡ some anchor)
        × SyncedAt (some anchor) s.positions)
    × All (IsGood 9) s.trains
pre_render-set_data_example =
    pre_render-set_data 0 9 train [] trains (omega arith) (train-IsGood, tt) (omega arith, tt)

abbrev renderer : Render
renderer = record {
  trains = trains;
  time_offset = pos 0;
  has_map = true;
  offscreen = some (record { width = 640; height = 480 });
  min_zoom = 0;
  last_frame = some 1000;
  target_fps = some 10;
  force_draw = false;
  trains_enabled = true;
  data_trains = [];
}
