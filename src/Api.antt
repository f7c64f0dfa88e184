-- ===== src/Api.antt =====
-- ui/web/js/railviz/api.js: the requests, the numbering of the calls and the address that is called.
-- Times are milliseconds, texts that are taken apart are lists of character codes.
use motis.Prelude.{
  ℕ, ◌+◌, ◌/◌, Bool, true, false, not, List, [], ◌∷◌, ◌++◌, String, str_eq, ◌==◌, if◌then◌else◌,
  any, codes,
}
use motis.Model.Geometry.{LatLng}
use motis.Model.Train.{Station, TripId}

-- An options object of the search form; the scripts only pass it on and compare it.
abbrev pub SearchOptions : Type 0
SearchOptions = String

pub data Content : Type 0 where
  trains : ℕ → ℕ → LatLng → LatLng → ℕ → ℕ → ℕ → ℕ → Content
  trips : List TripId → Content
  foot_routing : LatLng → List LatLng → SearchOptions → Bool → Bool → Bool → Content
  osrm_via : String → List LatLng → Content

-- The destination's type is always `Module`.
pub record Request : Type 0 where
  pub target : String
  pub content_type : String
  pub content : Content

unfoldable pub make_trains_request : ℕ → LatLng → LatLng → ℕ → ℕ → ℕ → ℕ → Request
make_trains_request zoom_level corner1 corner2 start_time end_time max_trains last_trains = record {
  target = "/railviz/get_trains";
  content_type = "RailVizTrainsRequest";
  content =
      trains zoom_level (zoom_level + 2) corner1 corner2 (start_time / 1000)
        ((end_time + 999) / 1000) max_trains last_trains;
}

unfoldable pub make_trips_request : List TripId → Request
make_trips_request trip_ids = record {
  target = "/railviz/get_trips";
  content_type = "RailVizTripsRequest";
  content = trips trip_ids;
}

unfoldable pub make_ppr_request : Station → Station → SearchOptions → Request
make_ppr_request departure arrival search_options = record {
  target = "/ppr/route";
  content_type = "FootRoutingRequest";
  content = foot_routing departure.position (arrival.position ∷ []) search_options true false true;
}

unfoldable pub get_osrm_profile : String → String
get_osrm_profile mumo_type =
    if str_eq mumo_type "bike" then "bike" else if str_eq mumo_type "car" then "car" else "foot"

unfoldable pub make_osrm_request : String → Station → Station → Request
unfolding get_osrm_profile
make_osrm_request mumo_type departure arrival = record {
  target = "/osrm/via";
  content_type = "OSRMViaRouteRequest";
  content = osrm_via (get_osrm_profile mumo_type) (departure.position ∷ arrival.position ∷ []);
}

-- `url.includes(c)` and `url.endsWith(c)` for a single character.
abbrev pub includes : ℕ → List ℕ → Bool
includes c url = any (λ d. d == c) url

abbrev pub ends_with : ℕ → List ℕ → Bool
ends_with c [] = false
ends_with c (d ∷ []) = d == c
ends_with c (d ∷ e ∷ url) = ends_with c (e ∷ url)

unfoldable pub request_url : List ℕ → Request → List ℕ
request_url api_endpoint request =
    if str_eq request.target ""
    then api_endpoint
    else if not (includes b'?' api_endpoint)
    then api_endpoint ++ codes "?target=" ++ codes request.target
    else if not (ends_with b'&' api_endpoint)
    then api_endpoint ++ codes "&target=" ++ codes request.target
    else api_endpoint ++ codes "target=" ++ codes request.target

-- What the browser reports of a call: an answer with its status, or a failure.
pub data Outcome {ℓ} (A : Type ℓ) : Type ℓ where
  load : ℕ → A → Outcome A
  network_error timeout : Outcome A

-- The callback that is called, and with what.
pub data Callback {ℓ} (A : Type ℓ) : Type ℓ where
  on_success : A → Callback A
  on_fail : A → Callback A
  on_fail_text : String → Callback A

unfoldable pub callback {ℓ} : {A : Type ℓ} → Outcome A → Callback A
callback (load status response) = if status == 200 then on_success response else on_fail response
callback network_error = on_fail_text "NetworkError"
callback timeout = on_fail_text "TimeoutError"
