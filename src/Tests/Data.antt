-- ===== src/Tests/Data.antt =====
-- A map of integer coordinates, a polyline of two lines, and a train that runs along it.
use motis.Prelude.{ℕ, ◌≤◌, ◌≡◌, refl, arith, String, List, [], ◌∷◌, none, some, Bool, true, false}
use motis.Prelude.Int.{ℤ, pos, negsuc, pos_part}
use mathlib.Core.Option
use motis.Prelude.Maths.{sqrt}
use motis.Model.Geometry.{
  LatLng, Point, Polyline, measure_polyline, measure_lines, line_length, preprocess_polyline,
}
use motis.Model.Geometry.Measure.{IsMeasured, preprocess_polyline-IsMeasured}
use motis.Model.Train.{
  TripId, Station, TrainData, Train, PolylineRef, ratio, new_train, resolve_polylines,
}
use motis.Model.Train.Layout.{IsLaidOut, IsUsable}
use motis.Model.Position.{at, get_curr_line_pos, is_within, progress}
use motis.Model.Position.Coverage.{IsOn}
use motis.Model.Position.Update.{IsRunning}
use motis.Model.Preprocess.{Response, Content, preprocess, new_trains}

abbrev pub lat_lng : ℕ → ℕ → LatLng
lat_lng lat lng = record { lat = pos lat; lng = pos lng }

abbrev pub point : ℕ → ℕ → Point
point x y = record { x = x; y = y }

abbrev pub from_lng_lat : ℤ → ℤ → Point
from_lng_lat lng lat = record { x = pos_part lng; y = pos_part lat }

abbrev pub decode : String → List LatLng
decode str = lat_lng 0 0 ∷ lat_lng 4 3 ∷ lat_lng 4 6 ∷ []

abbrev pub line_a : Polyline
line_a = record {
  coordinates = lat_lng 0 0 ∷ lat_lng 4 3 ∷ lat_lng 4 6 ∷ [];
  mercator_coordinates = point 0 0 ∷ point 3 4 ∷ point 6 4 ∷ [];
  line_count = 2;
  line_lengths = 5 ∷ 3 ∷ [];
  line_offsets = 0 ∷ 5 ∷ 8 ∷ [];
  total_length = 8;
}

abbrev pub trip_id : TripId
trip_id = record {
  station_id = "A";
  train_nr = some 7;
  time = 0;
  target_station_id = "B";
  target_time = 16;
  line_id = "1";
}

abbrev pub train_data : TrainData
train_data = record {
  names = "RE 1" ∷ [];
  clasz = some 5;
  route_distance = 20000;
  route_distance_ = none;
  d_station_id = "A";
  a_station_id = "B";
  d_time = 0;
  a_time = 16;
  sched_d_time = 0;
  sched_a_time = 16;
  d_time_reason = "REAL";
  a_time_reason = "REAL";
  trip = trip_id ∷ [];
  indices = pos 1 ∷ negsuc 0 ∷ [];
}

abbrev pub station_a : Station
station_a = record { id = "A"; name = "Alpha"; position = lat_lng 0 0 }

abbrev pub station_b : Station
station_b = record { id = "B"; name = "Beta"; position = lat_lng 4 6 }

abbrev pub stations : List Station
stations = station_a ∷ station_b ∷ []

abbrev pub ref : Bool → ℕ → PolylineRef
ref fwd offset = record { fwd = fwd; offset = offset; index = 1; polyline = line_a }

-- There and back again.
abbrev pub train : Train
train = record {
  info = train_data;
  d_station = some station_a;
  a_station = some station_b;
  polylines = ref true 0 ∷ ref false 8 ∷ [];
  total_length = 16;
  unmeasured = false;
  curr_polyline = none;
  curr_line = none;
  curr_progress = none;
}

line_a-IsMeasured : IsMeasured line_a
unfolding preprocess_polyline measure_polyline measure_lines line_length sqrt
line_a-IsMeasured = preprocess_polyline-IsMeasured decode from_lng_lat "text" refl

pub line_a-IsUsable : IsUsable line_a
line_a-IsUsable = record { measured = line_a-IsMeasured; has_line = omega arith }

pub train-IsLaidOut : IsLaidOut train
train-IsLaidOut = record {
  contiguous = (refl, line_a-IsUsable, (refl, line_a-IsUsable, refl));
  nonempty = omega arith;
  measured = refl;
}

-- The train on its way back, at time 10.
abbrev pub moved_train : Train
moved_train = record train {
  curr_polyline = some 1;
  curr_line = some 0;
  curr_progress = some (ratio (pos 32) 48);
}

pub moved_train-IsLaidOut : IsLaidOut moved_train
moved_train-IsLaidOut = record {
  contiguous = (refl, line_a-IsUsable, (refl, line_a-IsUsable, refl));
  nonempty = omega arith;
  measured = refl;
}

unfoldable pub moved_train-IsOn : IsOn (at 160 16) moved_train
unfolding get_curr_line_pos Option.bind is_within progress
moved_train-IsOn = record {
  index = 1;
  ref = ref false 8;
  line = 0;
  span = record { offset = 8; len = 3 };
  on_index = refl;
  on_ref = refl;
  on_line = refl;
  on_span = refl;
  line-lt = omega arith;
  within = refl;
  on_progress = refl;
}

pub is_running : (time : ℕ) → time ≤ 16 → IsRunning time train
is_running time h = record { departed = omega arith; arrives = h; takes_time = omega arith }

abbrev pub response : Response
response = record {
  stations = stations;
  trains = train_data ∷ record train_data { clasz = some 7; indices = pos 0 ∷ [] } ∷ [];
  polylines = "first" ∷ "second" ∷ [];
  extras = 1 ∷ [];
}

abbrev pub content : Content
content =
    Option.get_or (preprocess decode from_lng_lat response)
      (record { stations = []; trains = []; polylines = []; extras = [] })

pub content-preprocess : preprocess decode from_lng_lat response ≡ some content
unfolding preprocess new_trains new_train resolve_polylines preprocess_polyline Option.bind
content-preprocess = refl
