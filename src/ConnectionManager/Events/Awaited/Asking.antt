-- ===== src/ConnectionManager/Events/Awaited/Asking.antt =====
-- What `requestWalks` of ui/web/js/railviz/connectionmgr.js asks for.
use motis.Prelude.{
  subst, if◌then◌else◌, ℕ, ◌≡◌, refl, ap, ◌∙◌, true, false, List, [], ◌∷◌, ◌++◌, Option, none, some,
  arith, Bool-cases, inl, inr,
}
use motis.Api.{SearchOptions}
use motis.ConnectionManager.Walks.{
  Walk, WalkEntry, Route, Coordinates, Router, osrm, ppr, walk_id, set_min_cid,
}
use motis.ConnectionManager.State.{Manager, Call, for_walk, send_request}
use motis.ConnectionManager.Requests.{
  AllRequested, is_open, Requested, ask_osrm, ask_ppr, send_walk, request_walk_segment,
  request_segments, has_polyline, uses_osrm, lookup_key,
}
use motis.ConnectionManager.Events.Awaited.{
  is_for, has_call, IsAwaited, AreAwaited, has_call-append,
}

-- The later manager has further calls under way, and the same walks.
abbrev pub Grows : Manager → Manager → Type 0
Grows m m' = ((ds : List Call) × (m'.pending ≡ m.pending ++ ds)) × (m'.generation ≡ m.generation)

append_nil : (cs : List Call) → cs ≡ cs ++ []
append_nil [] = refl
append_nil (c ∷ cs) = ap (λ ds. c ∷ ds) (append_nil cs)

append_assoc : (cs ds es : List Call) → (cs ++ ds) ++ es ≡ cs ++ (ds ++ es)
append_assoc [] ds es = refl
append_assoc (c ∷ cs) ds es = ap (λ fs. c ∷ fs) (append_assoc cs ds es)

Grows-refl : (m : Manager) → Grows m m
Grows-refl m = (([], append_nil m.pending), refl)

Grows-trans : (a b c : Manager) → Grows a b → Grows b c → Grows a c
Grows-trans a b c ((ds, e), f) ((es, g), h) =
    ((ds ++ es, g ∙ ap (λ cs. cs ++ es) e ∙ append_assoc a.pending ds es), h ∙ f)

any-last :
    (generation id : ℕ) (cs : List Call) (c : Call)
    → is_for generation id c.purpose ≡ true
    → has_call generation id (cs ++ c ∷ []) ≡ true
any-last generation id [] c h = rw h
any-last generation id (d ∷ cs) c h = ground (arith, any-last generation id cs c h)

-- A request leaves the entry waited for, or settled.
abbrev Asked : Manager → Requested → Type 0
Asked m r = Grows m r.manager × IsAwaited m.generation r.manager.pending r.entry

is_for_self :
    (g i : ℕ) (walk : Walk) (router : Router) → is_for g i (for_walk g i walk router) ≡ true
is_for_self g i walk router = ground arith

ask_osrm-Asked : (c : Option Coordinates) (w : WalkEntry) (m : Manager) → Asked m (ask_osrm c w m)
unfolding ask_osrm send_walk send_request
ask_osrm-Asked none w m = (
  ((_, refl), refl),
  λ o. any-last m.generation w.id m.pending _ (is_for_self m.generation w.id w.walk osrm),
)
ask_osrm-Asked (some c) w m = (Grows-refl m, λ o. cc)

ask_ppr-Asked :
    (options : SearchOptions) (r : Option Route) (w : WalkEntry) (m : Manager)
    → Asked m (ask_ppr options r w m)
unfolding ask_ppr send_walk send_request
ask_ppr-Asked options none w m = (
  ((_, refl), refl),
  λ o. any-last m.generation w.id m.pending _ (is_for_self m.generation w.id w.walk ppr),
)
ask_ppr-Asked options (some r) w m = (Grows-refl m, λ o. cc)

request_walk_segment-Asked :
    (options : SearchOptions) (w : WalkEntry) (m : Manager)
    → Asked m (request_walk_segment options w m)
unfolding request_walk_segment
request_walk_segment-Asked options w m = elim (Bool-cases (uses_osrm w.walk)) [
  | inl e ↦ rw e (ask_osrm-Asked (lookup_key (walk_id w.walk) m.osrm_cache) w m)
  | inr e ↦ rw e (ask_ppr-Asked options (lookup_key (walk_id w.walk) m.ppr_cache) w m)
]

has_polyline-settled : (w : WalkEntry) → has_polyline w ≡ true → is_open w ≡ false
has_polyline-settled w h = ground arith

-- The requests of a loop leave every entry waited for, or settled.
abbrev pub AllAsked : Manager → AllRequested → Type 0
AllAsked m r = Grows m r.manager × AreAwaited m.generation r.manager.pending r.entries

Asked-and :
    (m : Manager) (first : Requested) (rest : AllRequested)
    → Asked m first
    → AllAsked first.manager rest
    → AllAsked m (record { manager = rest.manager; entries = first.entry ∷ rest.entries })
Asked-and m first rest (((ds, e), g), awaited) (((es, f), h), all) = (
  Grows-trans m first.manager rest.manager ((ds, e), g) ((es, f), h),
  (
    (λ o. rw f (has_call-append m.generation first.entry.id first.manager.pending es (awaited o))),
    subst (λ n. AreAwaited n rest.manager.pending rest.entries) g all,
  ),
)

request_or_skip-Asked :
    (options : SearchOptions) (w : WalkEntry) (m : Manager)
    → Asked m (
        if has_polyline w
        then record { manager = m; entry = w }
        else request_walk_segment options w m)
request_or_skip-Asked options w m = elim (Bool-cases (has_polyline w)) [
  | inl e ↦ rw e (Grows-refl m, λ o. cc (o, has_polyline-settled w e))
  | inr e ↦ rw e (request_walk_segment-Asked options w m)
]

-- After the loop of `requestWalks` every entry is settled or waited for.
pub request_segments-AllAsked :
    (options : SearchOptions) (ws : List WalkEntry) (m : Manager)
    → AllAsked m (request_segments options ws m)
unfolding request_segments
request_segments-AllAsked options [] m = (Grows-refl m, tt)
request_segments-AllAsked options (w ∷ ws) m =
    let w' = set_min_cid w in
    let first : Requested =
      if has_polyline w'
      then record { manager = m; entry = w' }
      else request_walk_segment options w' m in
    Asked-and m first (request_segments options ws first.manager)
      (request_or_skip-Asked options w' m) (request_segments-AllAsked options ws first.manager)
