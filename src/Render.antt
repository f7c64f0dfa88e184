-- ===== src/Render.antt =====
-- ui/web/js/railviz/render.js, less what it only passes to WebGL. Times are milliseconds; a frame
-- rate stands for the time of a frame, 1000 / fps, and 0 is no rate.
pub mod Frames
pub mod Picking
use motis.Prelude.{
  ℕ, ◌-◌, ◌*◌, Bool, true, false, ◌&&◌, ◌||◌, not, List, [], Option, none, some, ltb, ◌==◌,
  if◌then◌else◌, get_elem?,
}
use mathlib.Core.Option
use motis.Prelude.Int.{ℤ, pos, negsuc}
use motis.Model.Train.{Train}
use motis.Trains.Colors.{Pixel}
use motis.Trains.State.{Trains}
use motis.Trains.State

pub record Offscreen : Type 0 where
  pub width : ℕ
  pub height : ℕ

pub record Render : Type 0 where
  pub trains : Trains
  pub time_offset : ℤ
  pub has_map : Bool
  pub offscreen : Option Offscreen
  pub min_zoom : ℕ
  pub last_frame : Option ℕ
  pub target_fps : Option ℕ
  pub force_draw : Bool
  pub trains_enabled : Bool
  -- `data.trains`
  pub data_trains : List Train

abbrev pub or_empty : Option (List Train) → List Train
or_empty none = []
or_empty (some ts) = ts

unfoldable pub set_data : Option (List Train) → Render → Render
set_data new_trains r = record r {
  data_trains = or_empty new_trains;
  trains = State.set_data (some (or_empty new_trains)) r.trains;
  force_draw = true;
}

abbrev bool_ne : Bool → Bool → Bool
bool_ne true b = not b
bool_ne false b = b

unfoldable pub set_trains_enabled : Bool → Render → Render
set_trains_enabled b r = record r { force_draw = bool_ne b r.trains_enabled; trains_enabled = b }

unfoldable pub set_time_offset : ℤ → Render → Render
set_time_offset offset r = record r { time_offset = offset; force_draw = true }

unfoldable pub set_min_zoom : ℕ → Render → Render
set_min_zoom min_zoom r = record r { min_zoom = min_zoom; force_draw = true }

abbrev non_zero : Option ℕ → Option ℕ
non_zero none = none
non_zero (some fps) = if fps == 0 then none else some fps

unfoldable pub set_target_fps : Option ℕ → Render → Render
set_target_fps fps r = record r { target_fps = non_zero fps }

unfoldable pub setup : Render → Render
setup r = record r { has_map = true; offscreen = none; last_frame = none; force_draw = true }

-- What `maybe_render` leads to: another look at the next animation frame, a repaint, or nothing.
pub data Action : Type 0 where
  wait repaint nothing : Action

pub record Frame : Type 0 where
  pub render : Render
  pub action : Action

-- `performance.now() - lastFrame < targetFrameTime`, at a frame rate and after a frame.
abbrev pub is_early : ℕ → Option ℕ → Option ℕ → Bool
is_early now none last = false
is_early now (some fps) none = false
is_early now (some fps) (some last) = ltb ((now - last) * fps) 1000

unfoldable pub maybe_render : ℕ → Render → Frame
maybe_render now r =
    if is_early now r.target_fps r.last_frame && not r.force_draw
    then record { render = r; action = wait }
    else record {
      render = record r { force_draw = false };
      action = if r.has_map then repaint else nothing;
    }

-- `time` is the current time in seconds.
unfoldable pub prerender : ℕ → Render → Option Render
prerender time r =
    if r.trains_enabled
    then Option.map (λ trains. record r { trains = trains }) (State.pre_render time r.trains)
    else some r

abbrev same_size : Offscreen → Offscreen → Bool
same_size a b = a.width == b.width && a.height == b.height

-- `createOffscreenBuffer` leaves a framebuffer of the size of the drawing buffer.
unfoldable pub create_offscreen_buffer : Offscreen → Option Offscreen → Option Offscreen
create_offscreen_buffer size none = some size
create_offscreen_buffer size (some old) = if same_size old size then some old else some size

unfoldable pub render : ℕ → Offscreen → Render → Render
render now size r = record r {
  offscreen = create_offscreen_buffer size r.offscreen;
  last_frame = some now;
}

-- The column and the row that are read, counted from the bottom as WebGL does; `none` for null. The
-- drawing buffer has the given size.
unfoldable pub read_offscreen_pixel : Offscreen → ℤ → ℤ → Option Offscreen → Option (ℕ × ℕ)
read_offscreen_pixel size x y none = none
read_offscreen_pixel size (pos x) (pos y) (some buffer) =
    if ltb x size.width && ltb y size.height then some (x, size.height - y) else none
read_offscreen_pixel size (pos x) (negsuc y) (some buffer) = none
read_offscreen_pixel size (negsuc x) y (some buffer) = none

-- The train under the mouse; `pixels` is what WebGL reads from the framebuffer.
unfoldable pub picked_train : (ℕ → ℕ → Pixel) → Offscreen → ℤ → ℤ → Render → Option Train
picked_train pixels size x y r =
    Option.bind
      (State.get_picked_train_index
        (Option.map (λ at. pixels at.0 at.1) (read_offscreen_pixel size x y r.offscreen)) r.trains)
      λ index. get_elem? r.data_trains index
