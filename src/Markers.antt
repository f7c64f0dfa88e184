-- ===== src/Markers.antt =====
-- ui/web/js/railviz/markers.js: the markers of the start and of the destination.
pub mod Placed
use motis.Prelude.{Bool, true, false, ◌&&◌, ◌||◌, not, Option, none, some, String, if◌then◌else◌}
use mathlib.Core.Option
use motis.Model.Geometry.{LatLng}

-- `text: name`, or the text alone, which `setLocale` sets.
pub data Title : Type 0 where
  named : String → String → Title
  plain : String → Title

pub record Marker : Type 0 where
  pub position : LatLng
  pub title : Title
  pub on_map : Bool

-- One of the two, with its part of the settings.
pub record Slot : Type 0 where
  pub marker : Option Marker
  pub position : Option LatLng
  pub name : String
  pub text : String

pub record Markers : Type 0 where
  pub start : Slot
  pub destination : Slot
  pub visible : Bool

unfoldable pub update_marker :
    Bool → Option LatLng → String → String → Option Marker → Option Marker
update_marker visible none text name m = none
update_marker visible (some pos) text name (some m) =
    if not visible then none else some (record m { position = pos; title = named text name })
update_marker visible (some pos) text name none =
    some (record { position = pos; title = named text name; on_map = visible })

unfoldable pub update_slot : Bool → Slot → Slot
update_slot visible s = record s {
  marker = update_marker visible s.position s.text s.name s.marker;
}

unfoldable pub update_markers : Markers → Markers
update_markers ms = record ms {
  start = update_slot ms.visible ms.start;
  destination = update_slot ms.visible ms.destination;
}

-- The settings of a slot.
pub record Setting : Type 0 where
  pub position : Option LatLng
  pub name : String

abbrev set_slot : Setting → Slot → Slot
set_slot setting s = record s { position = setting.position; name = setting.name }

unfoldable pub set_markers : Setting → Setting → Markers → Markers
set_markers start destination ms = update_markers (record ms {
  start = set_slot start ms.start;
  destination = set_slot destination ms.destination;
})

abbrev retitle : Slot → Slot
retitle s = record s {
  marker = Option.map {A = Marker} (λ m. record m { title = plain s.text }) s.marker;
}

unfoldable pub set_locale : String → String → Markers → Markers
set_locale start destination ms =
    let updated = update_markers (record ms {
      start = record ms.start { text = start };
      destination = record ms.destination { text = destination };
    }) in
    record updated { start = retitle updated.start; destination = retitle updated.destination }

abbrev place : Bool → Slot → Slot
place b s = record s { marker = Option.map {A = Marker} (λ m. record m { on_map = b }) s.marker }

abbrev place_both : Bool → Markers → Markers
place_both b ms = record ms {
  start = place b ms.start;
  destination = place b ms.destination;
  visible = b;
}

unfoldable pub show : Markers → Markers
show ms = if not ms.visible then place_both true ms else ms

unfoldable pub hide : Markers → Markers
hide ms = if ms.visible then place_both false ms else ms
