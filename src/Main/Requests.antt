-- ===== src/Main/Requests.antt =====
-- `sendTrainsRequest`, `sendTripsRequest`, `dataReceived` and `setDetailFilter` of
-- ui/web/js/railviz/main.js. `now` is `Date.now()`.
use motis.Prelude.{
  ℕ, ◌+◌, min, Bool, true, false, not, [], ◌∷◌, ◌++◌, map, Option, none, some, ◌==◌, if◌then◌else◌,
  length,
}
use mathlib.Core.Option
use motis.Prelude.Int.{ℤ, pos, negsuc, pos_part, ◌+ℤ◌}
use motis.Model.Preprocess.{Response, Content, preprocess}
use motis.External.{External}
use motis.Loading.{set_loading}
use motis.Api.{Request, make_trains_request, make_trips_request}
use motis.Detail.Data.{DetailFilter, DetailTrips}
use motis.Render
use motis.Main.State.{Main, MapInfo}
use motis.Main.Views.{show_full_data, show_detail_data}

-- `API.makeTrainsRequest` takes seconds, which are thousandths here until it rounds them; times of the
-- simulation before 1970 are taken for its beginning.
unfoldable pub trains_request : ℕ → MapInfo → Main → Request
trains_request now map_info m =
    let time = pos_part (m.time_offset +ℤ pos now) in
    make_trains_request (min map_info.zoom 18) map_info.north_west map_info.south_east time
      (time + 120000) 2500 m.last_trains_count

unfoldable pub trips_request : DetailFilter → Request
trips_request filter = make_trips_request (map (λ t. t.trip) filter.trains)

-- `setLoading(1)` and `API.sendRequest`.
unfoldable pub send : Bool → Request → Main → Main
send only_filtered_trips request m =
    let call_id = m.last_call_id + 1 in
    record m {
      last_call_id = call_id;
      calls =
          m.calls
          ++ record {
            call_id = call_id;
            only_filtered_trips = only_filtered_trips;
            request = request;
          }
            ∷ [];
      loading = set_loading (pos 1) m.loading;
    }

-- `none` is the TypeError where the map has not told its bounds yet.
unfoldable pub send_trains_request : ℕ → Main → Option Main
send_trains_request now m =
    Option.map
      (λ map_info.
        let m' = send false (trains_request now map_info m) m in
        record m' { last_trains_request = some m'.last_call_id })
      m.map_info

unfoldable pub send_trips_for : Option DetailFilter → Main → Main
send_trips_for none m = m
send_trips_for (some filter) m =
    let m' = send true (trips_request filter) m in
    record m' { last_trips_request = some m'.last_call_id }

unfoldable pub send_trips_request : Main → Main
send_trips_request m = send_trips_for m.detail_filter m

unfoldable pub set_detail_filter : Option DetailFilter → Main → Option Main
set_detail_filter none m = show_full_data (record m { detail_filter = none; detail_trips = none })
set_detail_filter (some filter) m =
    some (send_trips_request (record m { detail_filter = some filter }))

abbrev pub is_last : ℕ → Option ℕ → Bool
is_last id none = false
is_last id (some last) = id == last

abbrev unstyled : Content → DetailTrips
unstyled content = record {
  content = content;
  styles = map (λ p. record { clasz = none; highlight = false }) content.polylines;
}

-- The two branches of `dataReceived`, for the last request of their kind; the argument is the filter.
unfoldable pub trips_received : External → Content → Option DetailFilter → Main → Option Main
trips_received ext content none m = some (record m { detail_trips = some (unstyled content) })
trips_received ext content (some filter) m =
    show_detail_data ext filter (unstyled content)
      (record m { detail_trips = some (unstyled content) })

-- `data.stations` is null from now on.
abbrev pub full_data_received : Content → Main → Main
full_data_received content m = record m {
  last_trains_count = length content.trains;
  full_data = some (record content { stations = [] });
}

unfoldable pub trains_received : Content → Option DetailFilter → Main → Option Main
trains_received content none m = show_full_data (full_data_received content m)
trains_received content (some filter) m = some (full_data_received content m)

unfoldable pub use_content : External → Bool → Content → Main → Option Main
use_content ext true content m = trips_received ext content m.detail_filter m
use_content ext false content m = trains_received content m.detail_filter m

abbrev pub last_request : Bool → Main → Option ℕ
last_request true m = m.last_trips_request
last_request false m = m.last_trains_request

-- The callback of a call: the browser is done with it, and `setLoading(-1)` is called.
unfoldable pub end_loading : Main → Main
end_loading m = record m { loading = set_loading (negsuc 0) m.loading }

unfoldable pub data_received : External → Response → Bool → ℕ → Main → Option Main
data_received ext response only_filtered_trips call_id m =
    let m' = end_loading m in
    if not (is_last call_id (last_request only_filtered_trips m))
    then some m'
    else (Option.bind (preprocess ext.decode ext.from_lng_lat response)
        λ content. use_content ext only_filtered_trips content m')

-- The renderer gets the offset in milliseconds as well.
unfoldable pub set_time_offset : ℤ → Main → Main
set_time_offset offset m = record m {
  time_offset = offset;
  render = Render.set_time_offset offset m.render;
}
