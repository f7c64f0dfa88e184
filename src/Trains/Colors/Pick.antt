-- ===== src/Trains/Colors/Pick.antt =====
-- Picking by colour in ui/web/js/railviz/trains.js: encoding and decoding of a train's index.
use motis.Prelude.{ℕ, ◌+◌, ◌*◌, ◌/◌, ◌%◌, ◌≡◌, ◌<◌, ◌≤◌, some, arith}
use motis.Trains.Colors.{Color, Pixel, train_index_to_pick_color, pick_color_to_train_index}

abbrev pub opaque_pixel : Color → Pixel
opaque_pixel c = record { color = c; alpha = 255 }

bytes_sum : (i : ℕ) → i < 16777216 → i % 256 + i / 256 % 256 * 256 + i / 65536 % 256 * 65536 ≡ i
bytes_sum i h = omega arith

-- The colour in which a train is drawn for picking is the colour of no other train: for fewer than
-- 2 ^ 24 trains the index that is read back from an opaque pixel is the one that was drawn.
pub pick_color-round_trip :
    (count i : ℕ)
    → i < count
    → count ≤ 16777216
    → pick_color_to_train_index count (some (opaque_pixel (train_index_to_pick_color i))) ≡ some i
unfolding pick_color_to_train_index train_index_to_pick_color
pick_color-round_trip count i h k = rw (bytes_sum i (omega arith)) (ground arith)
