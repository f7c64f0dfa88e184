-- ===== src/Trains/Colors.antt =====
-- The colours of ui/web/js/railviz/trains.js: by class, by delay, and for picking. Times are seconds,
-- and a delay of so many minutes is compared in seconds.
pub mod Pick
use motis.Prelude.{
  ℕ, ◌+◌, ◌*◌, ◌/◌, ◌%◌, Bool, true, ◌||◌, List, [], ◌∷◌, Option, none, some, ltb, ◌==◌, str_eq,
  if◌then◌else◌, get_elem?,
}
use motis.Prelude.Int.{ℤ, pos, sub_ℕ, leb_ℤ}
use motis.Model.Train.{Train, or_zero}

pub record Color : Type 0 where
  pub red : ℕ
  pub green : ℕ
  pub blue : ℕ

abbrev rgb : ℕ → ℕ → ℕ → Color
rgb r g b = record { red = r; green = g; blue = b }

abbrev pub category_colors : List Color
category_colors =
    rgb 144 164 174
    ∷ rgb 156 39 176
    ∷ rgb 233 30 99
    ∷ rgb 156 204 101
    ∷ rgb 26 35 126
    ∷ rgb 244 67 54
    ∷ rgb 244 67 54
    ∷ rgb 76 175 80
    ∷ rgb 63 81 181
    ∷ rgb 245 124 0
    ∷ rgb 255 152 0
    ∷ rgb 0 172 193
    ∷ rgb 158 158 158
    ∷ []

-- `none` is undefined: a class for which there is no colour.
unfoldable pub get_category_color : Train → Option Color
get_category_color train =
    let clasz = or_zero train.clasz in
    if clasz == 9 || clasz == 10
    then if ltb 10000 train.route_distance
      then get_elem? category_colors 9
      else get_elem? category_colors 10
    else get_elem? category_colors clasz

unfoldable pub get_delay_color : Train → Color
get_delay_color train =
    let delay = sub_ℕ train.d_time train.sched_d_time in
    if str_eq train.d_time_reason "SCHEDULE"
    then rgb 100 100 100
    else if leb_ℤ delay (pos (3 * 60))
    then rgb 69 209 74
    else if leb_ℤ delay (pos (5 * 60))
    then rgb 255 237 0
    else if leb_ℤ delay (pos (10 * 60))
    then rgb 255 102 0
    else if leb_ℤ delay (pos (15 * 60))
    then rgb 255 48 71
    else rgb 163 0 10

-- `i & 255`, `(i >>> 8) & 255` and `(i >>> 16) & 255` of a number below 2 ^ 32.
unfoldable pub train_index_to_pick_color : ℕ → Color
train_index_to_pick_color i = rgb (i % 256) (i / 256 % 256) (i / 65536 % 256)

-- A pixel of the framebuffer.
pub record Pixel : Type 0 where
  pub color : Color
  pub alpha : ℕ

-- `train_count` is the number of the trains that the buffers were made for. No pixel is null.
unfoldable pub pick_color_to_train_index : ℕ → Option Pixel → Option ℕ
pick_color_to_train_index train_count none = none
pick_color_to_train_index train_count (some pixel) =
    let index = pixel.color.red + pixel.color.green * 256 + pixel.color.blue * 65536 in
    if pixel.alpha == 0 then none else if ltb index train_count then some index else none
