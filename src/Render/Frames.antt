-- ===== src/Render/Frames.antt =====
-- When ui/web/js/railviz/render.js draws.
use motis.Prelude.{
  ℕ, ◌-◌, ◌*◌, ◌≤◌, ◌<◌, ◌≡◌, refl, true, false, ◌&&◌, not, Option, some, arith, List, Bool-cases,
  inl, inr, subst, ◌⊎◌,
}
use motis.Model.Train.{Train}
use motis.Render.{
  Render, wait, repaint, is_early, maybe_render, set_data, set_min_zoom, set_trains_enabled,
}

-- With a map and a frame rate, a repaint is asked for exactly if a draw is forced or the time of a
-- frame has passed since the last one, and the draw is not forced any more; else it is looked at again
-- at the next animation frame.
maybe_render-action :
    (now fps last : ℕ) (r : Render)
    → r.target_fps ≡ some fps
    → r.last_frame ≡ some last
    → r.has_map ≡ true
    → ((maybe_render now r).action ≡ repaint)
        × ((maybe_render now r).render.force_draw ≡ false)
        × ((r.force_draw ≡ true) ⊎ (1000 ≤ (now - last) * fps))
      ⊎ ((maybe_render now r).action ≡ wait) × (r.force_draw ≡ false) × ((now - last) * fps < 1000)
unfolding maybe_render
maybe_render-action now fps last r f l m =
    elim (Bool-cases (is_early now r.target_fps r.last_frame && not r.force_draw)) [
      | inl e ↦
          let e' : (is_early now (some fps) (some last) && not r.force_draw) ≡ true =
            subst (λ o. (is_early now (some fps) o && not r.force_draw) ≡ true) l
              (subst (λ o. (is_early now o r.last_frame && not r.force_draw) ≡ true) f e) in
          rw e (inr (refl, ground arith, ground arith))
      | inr e ↦
          let e' : (is_early now (some fps) (some last) && not r.force_draw) ≡ false =
            subst (λ o. (is_early now (some fps) o && not r.force_draw) ≡ false) l
              (subst (λ o. (is_early now o r.last_frame && not r.force_draw) ≡ false) f e) in
          rw (e, m) (inl (refl, refl, ground arith))
    ]

-- `showFullData` and `showDetailData` end with these three calls: if the trains were enabled or
-- disabled as before, the draw that the new data had forced is not forced any more.
set_trains_enabled-same :
    (trains : Option (List Train)) (zoom : ℕ) (r : Render)
    → (set_min_zoom zoom (set_data trains r)).force_draw ≡ true
      × ((set_trains_enabled r.trains_enabled (set_min_zoom zoom (set_data trains r))).force_draw
          ≡ false)
unfolding set_trains_enabled set_min_zoom set_data
set_trains_enabled-same trains zoom r = ground arith
