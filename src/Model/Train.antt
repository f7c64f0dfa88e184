-- ===== src/Model/Train.antt =====
-- Class `Train` of ui/web/js/railviz/model.js: the constructor and the end points of the route.
-- A shared polyline is named by its index into the response's `polylines`, besides its value.
pub mod Layout
use motis.Prelude.{
  ℕ, zero, suc, ◌+◌, ◌-◌, ◌≡◌, Bool, true, false, List, [], ◌∷◌, map, Option, none, some, String,
  length, get_elem?, if◌then◌else◌, ◌==◌, str_eq, find?, not,
}
use mathlib.Core.Option
use motis.Prelude.Int.{ℤ, pos, negsuc, abs_ℕ}
use motis.Model.Geometry.{LatLng, Point, Polyline}

pub record TripId : Type 0 where
  pub station_id : String
  pub train_nr : Option ℕ
  pub time : ℕ
  pub target_station_id : String
  pub target_time : ℕ
  pub line_id : String

pub record Station : Type 0 where
  pub id : String
  pub name : String
  pub position : LatLng

-- A train as it stands in the response.
pub record TrainData : Type 0 where
  pub names : List String
  pub clasz : Option ℕ
  pub route_distance : ℕ
  -- The field that `preprocess` reads; the server's schema has none of this name.
  pub route_distance_ : Option ℕ
  pub d_station_id : String
  pub a_station_id : String
  pub d_time : ℕ
  pub a_time : ℕ
  pub sched_d_time : ℕ
  pub sched_a_time : ℕ
  pub d_time_reason : String
  pub a_time_reason : String
  pub trip : List TripId
  pub indices : List ℤ

pub record PolylineRef : Type 0 where
  pub fwd : Bool
  pub offset : ℕ
  pub index : ℕ
  pub polyline : Polyline

-- A fraction of a line, or the quotient of a non-zero number by zero.
pub data Progress : Type 0 where
  ratio : ℤ → ℕ → Progress
  infinite : Bool → Progress

pub record Train : Type 0 where
  pub info : TrainData
  pub open info use *
  pub d_station : Option Station
  pub a_station : Option Station
  pub polylines : List PolylineRef
  pub total_length : ℕ
  -- Whether `totalLength` is NaN, the sum with that of a polyline `{}`. The offsets of the polylines
  -- after it are then NaN too; they are read in comparisons with a position that is NaN itself.
  pub unmeasured : Bool
  -- index into `polylines`
  pub curr_polyline : Option ℕ
  -- index into the lines of that polyline
  pub curr_line : Option ℕ
  pub curr_progress : Option Progress

abbrev pub or_zero : Option ℕ → ℕ
or_zero o = Option.get_or o 0

pub find_station_by_id : List Station → String → Option Station
find_station_by_id stations id = find? (λ s. str_eq s.id id) stations

abbrev pub is_positive : ℤ → Bool
is_positive (pos (suc n)) = true
is_positive (pos zero) = false
is_positive (negsuc n) = false

pub record Polylines : Type 0 where
  pub refs : List PolylineRef
  pub offset : ℕ
  pub unmeasured : Bool

abbrev pub cons_ref : ℤ → ℕ → Polyline → Polylines → Polylines
cons_ref i offset polyline rest = record {
  refs =
      record { fwd = is_positive i; offset = offset; index = abs_ℕ i; polyline = polyline }
      ∷ rest.refs;
  offset = rest.offset;
  unmeasured = rest.unmeasured;
}

-- The object `{}` of a polyline without coordinates.
abbrev pub bare_polyline : Polyline
bare_polyline = record {
  coordinates = [];
  mercator_coordinates = [];
  line_count = 0;
  line_lengths = [];
  line_offsets = [];
  total_length = 0;
}

-- Its fields are missing, and to index one of them is a TypeError.
abbrev pub is_bare : PolylineRef → Bool
is_bare p = length p.polyline.mercator_coordinates == 0

-- The `map` over `indices` with its running offset. `none` is the TypeError of an index
-- past the end; a polyline `{}` makes every later offset NaN.
unfoldable pub resolve_polylines : List (Option Polyline) → ℕ → List ℤ → Option Polylines
resolve_polylines polylines offset [] =
    some (record { refs = []; offset = offset; unmeasured = false })
resolve_polylines polylines offset (i ∷ indices) = elim (get_elem? polylines (abs_ℕ i)) [
  | none ↦ none
  | some slot ↦ elim slot [
    | none ↦
        Option.map (λ rest. record (cons_ref i offset bare_polyline rest) { unmeasured = true })
          (resolve_polylines polylines offset indices)
    | some polyline ↦
        Option.map (cons_ref i offset polyline)
          (resolve_polylines polylines (offset + polyline.total_length) indices)
  ]
]

default_train_nr : TripId → TripId
default_train_nr trp = record trp { train_nr = some (or_zero trp.train_nr) }

-- Missing numbers of the response are zero.
unfoldable pub default_info : TrainData → TrainData
unfolding default_train_nr
default_info t = record t { clasz = some (or_zero t.clasz); trip = map default_train_nr t.trip }

unfoldable pub new_train : List Station → List (Option Polyline) → TrainData → Option Train
unfolding find_station_by_id
new_train stations polylines t =
    Option.map
      (λ p. record {
        info = default_info t;
        d_station = find_station_by_id stations t.d_station_id;
        a_station = find_station_by_id stations t.a_station_id;
        polylines = p.refs;
        total_length = p.offset;
        unmeasured = p.unmeasured;
        curr_polyline = none;
        curr_line = none;
        curr_progress = none;
      })
      (resolve_polylines polylines 0 t.indices)

-- The end of a list of coordinates at which the train is when it stands at the start of the
-- polyline, or at its end.
unfoldable pub end_of {ℓ} : {A : Type ℓ} → Bool → List A → Option A
end_of true coords = get_elem? coords 0
end_of false coords = get_elem? coords (length coords - 1)

unfoldable pub last? {ℓ} : {A : Type ℓ} → List A → Option A
last? xs = get_elem? xs (length xs - 1)

unfoldable pub first_coordinate : Train → Option LatLng
unfolding end_of
first_coordinate t = Option.bind (get_elem? t.polylines 0) λ p. end_of p.fwd p.polyline.coordinates

unfoldable pub last_coordinate : Train → Option LatLng
unfolding end_of last?
last_coordinate t = Option.bind (last? t.polylines) λ p. end_of (not p.fwd) p.polyline.coordinates

unfoldable pub first_mercator_coordinate : Train → Option Point
unfolding end_of
first_mercator_coordinate t =
    Option.bind (get_elem? t.polylines 0) λ p. end_of p.fwd p.polyline.mercator_coordinates

unfoldable pub last_mercator_coordinate : Train → Option Point
unfolding end_of last?
last_mercator_coordinate t =
    Option.bind (last? t.polylines) λ p. end_of (not p.fwd) p.polyline.mercator_coordinates
