-- ===== src/Render/Picking.antt =====
-- Which pixel ui/web/js/railviz/render.js reads, and which train it picks.
use motis.Prelude.{ℕ, ◌-◌, ◌<◌, ◌≡◌, ◌↔◌, some, arith}
use motis.Prelude.Int.{pos}
use motis.Render.{Offscreen, read_offscreen_pixel}

-- The pixel that is read lies `height - y` rows above the lowest, where the mouse is `y` below the
-- upper edge: it is a pixel of the framebuffer only if the mouse is not on the upper edge, and the
-- row of the mouse itself is the one below.
read_offscreen_pixel-row :
    (size buffer : Offscreen) (x y : ℕ)
    → x < size.width
    → y < size.height
    → (read_offscreen_pixel size (pos x) (pos y) (some buffer) ≡ some (x, size.height - y))
      × ((size.height - y < size.height) ↔ (0 < y))
unfolding read_offscreen_pixel
read_offscreen_pixel-row size buffer x y h k = ground arith
