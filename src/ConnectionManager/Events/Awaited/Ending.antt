-- ===== src/ConnectionManager/Events/Awaited/Ending.antt =====
-- When a call of ui/web/js/railviz/connectionmgr.js ends, the walks that stay open are waited for.
use motis.Prelude.{ℕ, ◌≡◌, ◌≢◌, refl, ◌∙◌, false, some, Bool-cases, inl, inr, arith, ◌==◌}
use motis.ConnectionManager.Walks.{Walk, WalkEntry, Router}
use motis.ConnectionManager.Walks.Grouping.{IsNumbered}
use motis.ConnectionManager.State.{
  Manager, Call, Purpose, for_trips, for_walk, end_call, find_call, remove_call,
}
use motis.ConnectionManager.Requests.{data_is_complete, is_open, show_connections}
use motis.ConnectionManager.Events.{change_walk}
use motis.ConnectionManager.Events.Awaited.{
  is_for, AreAwaited, has_call-remove_call, AreAwaited-update_at, AreAwaited-keeps,
}

-- Each walk without a polyline and without an error has a call under way.
abbrev pub Waits : Manager → Type 0
Waits m = AreAwaited m.generation m.pending m.walk_data

pub show_connections-Waits : (m : Manager) → Waits m → Waits (show_connections m)
unfolding show_connections
show_connections-Waits m h = elim (Bool-cases (data_is_complete m)) [
  | inl e ↦ rw e h
  | inr e ↦ rw e h
]

-- The call that ends is not for that walk.
is_for-other :
    (generation id : ℕ) (p : Purpose) (g i : ℕ) (walk : Walk) (router : Router)
    → p ≡ for_walk g i walk router
    → id ≢ i
    → is_for generation id p ≡ false
is_for-other generation id p g i walk router e ne = rw e (other ne)
  where
    other : id ≢ i → is_for generation id (for_walk g i walk router) ≡ false
    other ne = ground arith

is_for-late :
    (generation id : ℕ) (p : Purpose) (g i : ℕ) (walk : Walk) (router : Router)
    → p ≡ for_walk g i walk router
    → (g == generation) ≡ false
    → is_for generation id p ≡ false
is_for-late generation id p g i walk router e late = rw (e, late) refl

-- The call for walk `i` ends, and its entry is settled.
pub settled-Waits :
    (k g i : ℕ) (walk : Walk) (router : Router) (f : WalkEntry → WalkEntry) (m : Manager) {c : Call}
    → find_call k m.pending ≡ some c
    → c.purpose ≡ for_walk g i walk router
    → ((w : WalkEntry) → is_open (f w) ≡ false)
    → IsNumbered 0 m.walk_data
    → Waits m
    → Waits (change_walk g i f (end_call k m))
unfolding change_walk end_call
settled-Waits k g i walk router f m {c} e p settled n h = elim (Bool-cases (g == m.generation)) [
  | inl now ↦ rw now (
      AreAwaited-update_at m.generation 0 i m.pending (remove_call k m.pending) f m.walk_data n
        settled
        (λ id ne had.
          has_call-remove_call m.generation id k m.pending e
            (is_for-other m.generation id c.purpose g i walk router p (λ q. ne (omega (arith, q))))
          ∙ had)
        h)
  | inr late ↦ rw late (
      AreAwaited-keeps m.generation m.pending (remove_call k m.pending) m.walk_data
        (λ id had.
          has_call-remove_call m.generation id k m.pending e
            (is_for-late m.generation id c.purpose g i walk router p late)
          ∙ had)
        h)
]

-- The call for the trips ends.
pub trips_ended-Waits :
    (k : ℕ) (m : Manager) {c : Call}
    → find_call k m.pending ≡ some c
    → c.purpose ≡ for_trips
    → Waits m
    → Waits (end_call k m)
unfolding end_call
trips_ended-Waits k m {c} e p h =
    AreAwaited-keeps m.generation m.pending (remove_call k m.pending) m.walk_data
      (λ id had. has_call-remove_call m.generation id k m.pending e (rw p refl) ∙ had) h
