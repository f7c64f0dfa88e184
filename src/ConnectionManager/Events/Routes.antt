-- ===== src/ConnectionManager/Events/Routes.antt =====
-- Which route `handlePPRResponse` of ui/web/js/railviz/connectionmgr.js takes.
use mathlib.Core.List.{Perm}
use motis.Prelude.{◌≤◌, ◌≡◌, ap, true, false, List, [], ◌∷◌, map, some, All, arith, subst}
use motis.Prelude.Sorting.{sort_by-first, sort_by-perm}
use motis.ConnectionManager.Walks.{Walk, Route}
use motis.ConnectionManager.Events.{
  distance, duration_of, route_le, default_duration, first?, best_route,
}

-- No nearer to the walk's duration is `b` than `a`.
abbrev pub IsNearer : Walk → Route → Route → Type 0
IsNearer walk a b = distance (duration_of a) walk.duration ≤ distance (duration_of b) walk.duration

module _ (walk : Walk) where
  route_le-below : (a b : Route) → route_le walk a b ≡ true → IsNearer walk a b
  unfolding route_le
  route_le-below a b h = ground arith

  route_le-above : (a b : Route) → route_le walk a b ≡ false → IsNearer walk b a
  unfolding route_le
  route_le-above a b h = ground arith

  IsNearer-map :
      (best : Route) (routes : List Route)
      → All (IsNearer walk best) (map default_duration routes)
      → All (IsNearer walk best) routes
  unfolding default_duration
  IsNearer-map best [] h = tt
  IsNearer-map best (r ∷ routes) h = (h.0, IsNearer-map best routes h.1)

  -- If the service found routes, one of them is taken, with zero for a missing duration, and the
  -- duration of no other is nearer to that of the walk.
  pub best_route-IsNearer :
      (r : Route) (routes : List Route) (others : List (List Route))
      → (best : Route) × (rest : List Route) × (best_route walk ((r ∷ routes) ∷ others) ≡ some best)
        × Perm (best ∷ rest) (map default_duration (r ∷ routes))
        × All (IsNearer walk best) (r ∷ routes)
  unfolding best_route first?
  best_route-IsNearer r routes others =
      let (best, rest, e, all) =
        sort_by-first (route_le walk) (IsNearer walk) (λ a. omega arith) (λ a b c h k. omega arith)
          route_le-below route_le-above (default_duration r) (map default_duration routes) in
      (
        best,
        rest,
        ap first? e,
        subst (λ xs. Perm xs (map default_duration (r ∷ routes))) e
            (sort_by-perm (route_le walk) (map default_duration (r ∷ routes))),
        IsNearer-map best (r ∷ routes) all,
      )
