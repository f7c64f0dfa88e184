-- ===== src/Main/Views/Shown.antt =====
-- What the map of ui/web/js/railviz/main.js shows.
use motis.Prelude.{
  ℕ, ◌⊎◌, subst, arith, ◌≡◌, refl, Bool, true, false, ◌&&◌, not, List, Option, none, some,
  if◌then◌else◌, Holds, Option-cases, Bool-cases, inl, inr,
}
use motis.Model.Train.{Train}
use motis.External.{External}
use motis.Layers.{set_base_enabled, set_extra_data, set_extra_enabled}
use motis.Detail.Data.{DetailFilter, DetailTrips, FilterWalk, detail_features, show_features}
use motis.Detail.Data
use motis.Connections.Features
use motis.Connections.Highlight.{highlight_connections}
use motis.Render
use motis.Main.State.{Main}
use motis.Model.Preprocess.{Content}
use motis.Main.Views.{
  trains_of, enable_detail, filtered_min_zoom, show_full_data, show_detail, show_detail_data,
  show_trains, set_detail_walks, refresh, update_walks, walks_for, setup_fps_limiter,
}

-- The trains that are drawn. While the detail data are shown there are a filter and trips, and the
-- trains are theirs; without a filter they are those of the full data. Between the two, while a filter
-- waits for its trips, those that were drawn before are kept.
abbrev pub Draws :
    Bool → Option DetailFilter → Option DetailTrips → Option Content → List Train → Type 0
Draws false none trips full trains = trains ≡ Render.or_empty (trains_of full)
Draws false (some filter) trips full trains = Unit
Draws true none trips full trains = ⊥
Draws true (some filter) none full trains = ⊥
Draws true (some filter) (some trips) full trains = trains ≡ trips.content.trains

pub record Consistent (showing enabled base extra connections detail drawn : Bool) (min_zoom : ℕ)
    (features : Option (List Data.Feature)) (filter : Option DetailFilter)
    (trips : Option DetailTrips) (full : Option Content) (trains : List Train) : Type 0 where
  pub base_shown : base ≡ (not showing && enabled)
  pub extra_shown : extra ≡ (not showing && enabled)
  pub connections_shown : connections ≡ not showing
  -- At first the detail layer is enabled, but has nothing to show.
  pub detail_shown : (detail ≡ (showing && drawn)) ⊎ (showing ≡ false) × (features ≡ none)
  pub trains_shown : showing ≡ false → drawn ≡ enabled
  pub zoom : min_zoom ≡ (if showing then filtered_min_zoom else 0)
  pub draws : Draws showing filter trips full trains

-- The views are those of the full data, or those of the detail data, and not a mixture.
abbrev pub IsConsistent : Main → Type 0
IsConsistent m =
    Consistent m.showing_detail_data m.trains_enabled m.base.enabled m.extra.enabled
      m.connections.enabled m.detail.enabled m.render.trains_enabled m.render.min_zoom
      m.detail.features m.detail_filter m.detail_trips m.full_data m.render.data_trains

full-Draws :
    (filter : Option DetailFilter) (trips : Option DetailTrips) (full : Option Content)
    → Draws false filter trips full (Render.or_empty (trains_of full))
full-Draws none trips full = refl
full-Draws (some filter) trips full = tt

pub show_full_data-IsConsistent : (m : Main) → Holds IsConsistent (show_full_data m)
unfolding show_full_data set_base_enabled set_extra_enabled Features.set_enabled Data.set_enabled
    Render.set_trains_enabled Render.set_min_zoom Render.set_data
show_full_data-IsConsistent m = elim (Option-cases (set_extra_data m.full_data m.extra)) [
  | inl e ↦ rw e tt
  | inr (extra, e) ↦ rw e (record {
    base_shown = refl;
    extra_shown = refl;
    connections_shown = refl;
    detail_shown = inl refl;
    trains_shown = λ f. refl;
    zoom = refl;
    draws = full-Draws m.detail_filter m.detail_trips m.full_data;
  })
]

show_detail-IsConsistent : (shown : Data.Shown) (m : Main) → IsConsistent (show_detail shown m)
unfolding show_detail enable_detail set_base_enabled set_extra_enabled Features.set_enabled
    Data.set_enabled show_features highlight_connections Render.set_trains_enabled
    Render.set_min_zoom Render.set_data
show_detail-IsConsistent shown m = record {
  base_shown = refl;
  extra_shown = refl;
  connections_shown = refl;
  detail_shown = inl refl;
  trains_shown = λ f. cc;
  zoom = refl;
  draws = refl;
}

pub show_detail_data-IsConsistent :
    (ext : External) (filter : DetailFilter) (trips : DetailTrips) (m : Main)
    → Holds IsConsistent (show_detail_data ext filter trips m)
unfolding show_detail_data
show_detail_data-IsConsistent ext filter trips m =
    elim (Option-cases (detail_features ext.deep_equal filter trips)) [
      | inl e ↦ rw e tt
      | inr (shown, e) ↦ rw e (show_detail-IsConsistent shown m)
    ]

pub show_trains-IsConsistent :
    (b : Bool) (m : Main) → IsConsistent m → IsConsistent (show_trains b m)
unfolding show_trains set_base_enabled set_extra_enabled Data.set_enabled Render.set_trains_enabled
show_trains-IsConsistent b m h = record {
  base_shown = refl;
  extra_shown = refl;
  connections_shown = h.connections_shown;
  detail_shown = inl refl;
  trains_shown = λ f. refl;
  zoom = h.zoom;
  draws = h.draws;
}

-- Another filter does not change what is drawn.
Draws-filter :
    (showing : Bool) (old : Option DetailFilter) (filter : DetailFilter)
    (trips : Option DetailTrips) (full : Option Content) (trains : List Train)
    → Draws showing old trips full trains
    → Draws showing (some filter) trips full trains
Draws-filter false old filter trips full trains h = tt
Draws-filter true none filter trips full trains h = absurd h
Draws-filter true (some old) filter none full trains h = h
Draws-filter true (some old) filter (some trips) full trains h = h

-- The detail view has trips.
Draws-trips :
    (filter : Option DetailFilter) (full : Option Content) (trains : List Train)
    → Draws true filter none full trains
    → ⊥
Draws-trips none full trains h = h
Draws-trips (some filter) full trains h = h

pub Draws-IsConsistent :
    (m : Main) (filter : Option DetailFilter) (trips : Option DetailTrips) (full : Option Content)
    → IsConsistent m
    → Draws m.showing_detail_data filter trips full m.render.data_trains
    → IsConsistent (record m { detail_filter = filter; detail_trips = trips; full_data = full })
Draws-IsConsistent m filter trips full h d = record {
  base_shown = h.base_shown;
  extra_shown = h.extra_shown;
  connections_shown = h.connections_shown;
  detail_shown = h.detail_shown;
  trains_shown = h.trains_shown;
  zoom = h.zoom;
  draws = d;
}

pub set_filter-IsConsistent :
    (filter : DetailFilter) (m : Main)
    → IsConsistent m
    → IsConsistent (record m { detail_filter = some filter })
set_filter-IsConsistent filter m h =
    Draws-IsConsistent m (some filter) m.detail_trips m.full_data h (
      Draws-filter m.showing_detail_data m.detail_filter filter m.detail_trips m.full_data
        m.render.data_trains h.draws)

refresh-IsConsistent :
    (ext : External) (updated : Bool) (trips : Option DetailTrips) (filter : DetailFilter)
    (m : Main)
    → m.detail_trips ≡ trips
    → IsConsistent m
    → Holds IsConsistent (refresh ext updated trips filter m)
unfolding refresh
refresh-IsConsistent ext updated none filter m e h =
    elim (Bool-cases (updated && m.showing_detail_data)) [
      | inl f ↦
          let showing : m.showing_detail_data ≡ true = ground arith in
          absurd (
            Draws-trips m.detail_filter m.full_data m.render.data_trains (
              subst (λ b. Draws b m.detail_filter none m.full_data m.render.data_trains) showing
                (subst
                  (λ t.
                    Draws m.showing_detail_data m.detail_filter t m.full_data m.render.data_trains)
                  e h.draws)))
      | inr f ↦ rw (f, refresh) (set_filter-IsConsistent filter m h)
    ]
refresh-IsConsistent ext updated (some trips) filter m e h =
    elim (Bool-cases (updated && m.showing_detail_data)) [
      | inl f ↦ rw (f, refresh) (show_detail_data-IsConsistent ext filter trips m)
      | inr f ↦ rw (f, refresh) (set_filter-IsConsistent filter m h)
    ]

walks_for-IsConsistent :
    (ext : External) (walks : List FilterWalk) (filter : Option DetailFilter) (m : Main)
    → IsConsistent m
    → Holds IsConsistent (walks_for ext walks filter m)
unfolding walks_for
walks_for-IsConsistent ext walks none m h = h
walks_for-IsConsistent ext walks (some filter) m h =
    let updated = update_walks walks filter.walks in
    refresh-IsConsistent ext updated.updated m.detail_trips
      (record filter { walks = updated.walks }) m refl h

pub set_detail_walks-IsConsistent :
    (ext : External) (walks : List FilterWalk) (m : Main)
    → IsConsistent m
    → Holds IsConsistent (set_detail_walks ext walks m)
unfolding set_detail_walks
set_detail_walks-IsConsistent ext walks m h = walks_for-IsConsistent ext walks m.detail_filter m h

pub setup_fps_limiter-IsConsistent :
    (m : Main) → IsConsistent m → IsConsistent (setup_fps_limiter m)
unfolding setup_fps_limiter Render.set_target_fps
setup_fps_limiter-IsConsistent m h = h
