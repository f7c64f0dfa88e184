-- ===== src/Markers/Placed.antt =====
-- Where the markers of ui/web/js/railviz/markers.js stand.
use motis.Prelude.{◌≡◌, refl, ap, subst, Bool, true, false, Option, none, some, String}
use mathlib.Core.Option
use motis.Model.Geometry.{LatLng}
use motis.Markers.{
  Marker, named, Setting, Markers, update_marker, update_slot, update_markers, set_markers, show,
  hide,
}

-- A marker is on the map exactly while the markers are visible.
abbrev pub IsPlaced : Bool → Option Marker → Type 0
IsPlaced visible none = Unit
IsPlaced visible (some m) = m.on_map ≡ visible

pub record ArePlaced (ms : Markers) : Type 0 where
  pub start : IsPlaced ms.visible ms.start.marker
  pub destination : IsPlaced ms.visible ms.destination.marker

-- There is a marker exactly if there is a position, and it stands there, named.
abbrev pub IsAt : Option LatLng → String → String → Option Marker → Type 0
IsAt none text name m = m ≡ none
IsAt (some pos) text name m =
    m ≡ some (record { position = pos; title = named text name; on_map = true })

update_marker-IsPlaced :
    (visible : Bool) (pos : Option LatLng) (text name : String) (m : Option Marker)
    → IsPlaced visible m
    → IsPlaced visible (update_marker visible pos text name m)
unfolding update_marker
update_marker-IsPlaced visible none text name m h = tt
update_marker-IsPlaced true (some pos) text name (some m) h = h
update_marker-IsPlaced false (some pos) text name (some m) h = tt
update_marker-IsPlaced visible (some pos) text name none h = refl

update_marker-IsAt :
    (pos : Option LatLng) (text name : String) (m : Option Marker)
    → IsPlaced true m
    → IsAt pos text name (update_marker true pos text name m)
unfolding update_marker
update_marker-IsAt none text name m h = refl
update_marker-IsAt (some pos) text name none h = refl
update_marker-IsAt (some pos) text name (some m) h = rw h

-- While the markers are visible, setting them leaves a marker exactly where a position is given, on
-- the map, at that position and with the text and the name; visible or not, no marker is on the map
-- unless the markers are visible.
pub set_markers-IsAt :
    (start destination : Setting) (ms : Markers)
    → ArePlaced ms
    → let ms' = set_markers start destination ms in
      ArePlaced ms'
      × (ms.visible ≡ true
          → IsAt start.position ms.start.text start.name ms'.start.marker
            × IsAt destination.position ms.destination.text destination.name ms'.destination.marker)
unfolding set_markers update_markers update_slot
set_markers-IsAt start destination ms h = (
  record {
    start = update_marker-IsPlaced ms.visible start.position _ _ ms.start.marker h.start;
    destination =
        update_marker-IsPlaced ms.visible destination.position _ _ ms.destination.marker
          h.destination;
  },
  λ e. (
    at e start.position ms.start.text start.name ms.start.marker h.start,
    at e destination.position ms.destination.text destination.name ms.destination.marker
        h.destination,
  ),
)
  where
    at :
        ms.visible ≡ true
        → (pos : Option LatLng) (text name : String) (m : Option Marker) → IsPlaced ms.visible m
        → IsAt pos text name (update_marker ms.visible pos text name m)
    at e pos text name m p =
        rw e (update_marker-IsAt pos text name m (subst (λ b. IsPlaced b m) e p))

update_marker-hidden :
    (pos : Option LatLng) (text name : String) (m : Option Marker) {old : Marker}
    → m ≡ some old
    → update_marker false pos text name
        (Option.map {A = Marker} (λ n. record n { on_map = false }) m)
      ≡ none
unfolding update_marker
update_marker-hidden none text name m e = refl
update_marker-hidden (some pos) text name none e = cc
update_marker-hidden (some pos) text name (some m) e = refl

-- The markers that are there are lost if they are set while they are hidden: when they are shown
-- again, there is none, though positions are given.
hide-set_markers-show :
    (start destination : Setting) (ms : Markers) {s d : Marker}
    → ms.visible ≡ true
    → ms.start.marker ≡ some s
    → ms.destination.marker ≡ some d
    → let ms' = show (set_markers start destination (hide ms)) in
      (ms'.start.marker ≡ none) × (ms'.destination.marker ≡ none) × (ms'.visible ≡ true)
unfolding show hide set_markers update_markers update_slot
hide-set_markers-show start destination ms v s d = rw v (
  ap (Option.map {A = Marker} (λ n. record n { on_map = true }))
      (update_marker-hidden start.position ms.start.text start.name ms.start.marker s),
  ap (Option.map {A = Marker} (λ n. record n { on_map = true })) (
      update_marker-hidden destination.position ms.destination.text destination.name
        ms.destination.marker d),
  refl,
)
