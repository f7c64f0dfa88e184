-- ===== src/Connections/Picking/Drawn.antt =====
-- What is picked where ui/web/js/railviz/path_connections.js has drawn a feature.
use motis.Prelude.{
  ℕ, suc, Holds, Holds-some, ◌+◌, ◌-◌, ◌≡◌, refl, ap, subst, ◌∙◌, true, false, List, [], ◌∷◌, ◌++◌,
  Option, none, some, get_elem?, ltb, All, arith, Option-cases, inl, inr,
}
use mathlib.Core.Option
use motis.Model.Geometry.{LatLng, Polyline}
use motis.ConnectionManager.Walks.{WalkEntry}
use motis.ConnectionManager.Walks.Grouping.{IsNumbered}
use motis.ConnectionManager.State.{TripTrain, TripPolyline, LinkedTrips, TripData, received, linked}
use motis.Connections.Features.{
  Feature, trip_feature, trip_features, trip_data_features, walk_feature_id, cons_feature,
  walk_polyline, walk_features, features_of,
}
use motis.Connections.Picking.{trains, walk, picked_trains, picked_walk}

-- What `getPickedConnections` answers for a feature that was drawn: for a trip the trains of the
-- polyline whose points were drawn, for a walk the walk whose polyline was drawn.
pub data IsPicked (trip_data : Option TripData) (walks : List WalkEntry) : Feature → Type 0 where
  on_trip :
      {f : Feature} (trips : LinkedTrips) (p : TripPolyline) (line : Polyline) (ts : List TripTrain)
      → f.trip ≡ true
      → trip_data ≡ some (linked trips)
      → get_elem? trips.polylines f.id ≡ some p
      → p.polyline ≡ some line
      → f.coordinates ≡ line.coordinates
      → p.trains ≡ some ts
      → picked_trains trip_data f.id ≡ some (trains (some ts))
      → IsPicked trip_data walks f
  on_walk :
      {f : Feature} (w : WalkEntry)
      → f.trip ≡ false
      → picked_walk (some walks) f.id ≡ some (walk (some w))
      → f.coordinates ≡ walk_polyline w
      → IsPicked trip_data walks f

All-append {ℓ κ} :
    {A : Type ℓ} (P : A → Type κ) (xs ys : List A) → All P xs → All P ys → All P (xs ++ ys)
All-append P [] ys h k = k
All-append P (x ∷ xs) ys h k = (h.0, All-append P xs ys h.1 k)

-- A feature of a trip: its number is that of a polyline that trains use, and its points are that
-- polyline's.
abbrev OfTrip : List TripPolyline → Feature → Type 0
OfTrip all f =
    (f.trip ≡ true)
    × (p : TripPolyline) × (line : Polyline) × (ts : List TripTrain) × (get_elem? all f.id ≡ some p)
    × (p.polyline ≡ some line)
    × (f.coordinates ≡ line.coordinates)
    × (p.trains ≡ some ts)

cons-OfTrip :
    (all : List TripPolyline) (f : Feature) (rest : Option (List Feature))
    → OfTrip all f
    → Holds (All (OfTrip all)) rest
    → Holds (All (OfTrip all)) (Option.map (λ fs. f ∷ fs) rest)
cons-OfTrip all f none h k = tt
cons-OfTrip all f (some fs) h k = (h, k)

trip_features-OfTrip :
    (all : List TripPolyline) (i : ℕ) (ps : List TripPolyline)
    → ((k n : ℕ) (p : TripPolyline)
        → n ≡ i + k
        → get_elem? ps k ≡ some p
        → get_elem? all n ≡ some p)
    → Holds (All (OfTrip all)) (trip_features i ps)
unfolding trip_features Option.bind trip_feature
trip_features-OfTrip all i [] at = tt
trip_features-OfTrip all i (p ∷ ps) at =
    let rest = trip_features-OfTrip all (i + 1) ps (λ k n q s e. at (suc k) n q (omega arith) e) in
    elim (Option-cases p.trains) [
      | inl e ↦ rw (e, trip_features) rest
      | inr (ts, e) ↦ elim (Option-cases p.polyline) [
        | inl f ↦ rw (e, f, trip_features) tt
        | inr (polyline, f) ↦
            rw (e, f, trip_features)
              (cons-OfTrip all (trip_feature i p.min_cid polyline) (trip_features (i + 1) ps)
                (refl, p, polyline, ts, at 0 i p (omega arith) refl, f, refl, e) rest)
      ]
    ]

OfTrip-IsPicked :
    (trips : LinkedTrips) (walks : List WalkEntry) (f : Feature)
    → OfTrip trips.polylines f
    → IsPicked (some (linked trips)) walks f
unfolding picked_trains
OfTrip-IsPicked trips walks f (is_trip, p, line, ts, e, l, c, g) =
    on_trip trips p line ts is_trip refl e l c g (rw (e, g))

All-mono {ℓ κ μ} :
    {A : Type ℓ} (P : A → Type κ) (Q : A → Type μ) (xs : List A)
    → ((x : A) → P x → Q x)
    → All P xs
    → All Q xs
All-mono P Q [] f h = tt
All-mono P Q (x ∷ xs) f h = (f x h.0, All-mono P Q xs f h.1)

trips-IsPicked :
    (trip_data : Option TripData) (walks : List WalkEntry)
    → Holds (All (IsPicked trip_data walks)) (trip_data_features trip_data)
unfolding trip_data_features
trips-IsPicked none walks = tt
trips-IsPicked (some (received response)) walks = tt
trips-IsPicked (some (linked trips)) walks = elim (Option-cases (trip_features 0 trips.polylines)) [
  | inl e ↦ rw e tt
  | inr (fs, e) ↦ rw e (
      All-mono (OfTrip trips.polylines) (IsPicked (some (linked trips)) walks) fs
        (OfTrip-IsPicked trips walks)
        (Holds-some (All (OfTrip trips.polylines)) (trip_features 0 trips.polylines)
          (trip_features-OfTrip trips.polylines 0 trips.polylines
            (λ k n p s g. subst (λ j. get_elem? trips.polylines j ≡ some p) (omega arith) g))
          e))
]

picked_walk-entry :
    (all : List WalkEntry) (i : ℕ) {w : WalkEntry}
    → get_elem? all i ≡ some w
    → picked_walk (some all) (walk_feature_id i) ≡ some (walk (some w))
unfolding picked_walk walk_feature_id
picked_walk-entry all i {w} e =
    let small : ltb (1000000000 + i) 1000000000 ≡ false = ground arith in
    let index : i ≡ 1000000000 + i - 1000000000 = omega arith in
    rw small (ap (λ o. some (walk o)) (subst (λ j. get_elem? all j ≡ some w) index e))

cons_feature-IsPicked :
    (trip_data : Option TripData) (all : List WalkEntry) (i : ℕ) (w : WalkEntry)
    (coords : List LatLng) (fs : List Feature)
    → coords ≡ walk_polyline w
    → w.id ≡ i
    → get_elem? all i ≡ some w
    → All (IsPicked trip_data all) fs
    → All (IsPicked trip_data all) (cons_feature w coords fs)
unfolding cons_feature
cons_feature-IsPicked trip_data all i w [] fs c n e h = h
cons_feature-IsPicked trip_data all i w (ll ∷ coords) fs c n e h = (
  on_walk w refl
      (ap (λ j. picked_walk (some all) (walk_feature_id j)) n ∙ picked_walk-entry all i e) c,
  h,
)

walk_features-IsPicked :
    (trip_data : Option TripData) (all : List WalkEntry) (i : ℕ) (ws : List WalkEntry)
    → IsNumbered i ws
    → ((k n : ℕ) (w : WalkEntry) → n ≡ i + k → get_elem? ws k ≡ some w → get_elem? all n ≡ some w)
    → All (IsPicked trip_data all) (walk_features ws)
unfolding walk_features
walk_features-IsPicked trip_data all i [] n at = tt
walk_features-IsPicked trip_data all i (w ∷ ws) n at =
    cons_feature-IsPicked trip_data all i w (walk_polyline w) (walk_features ws) refl n.0
      (at 0 i w (omega arith) refl)
      (walk_features-IsPicked trip_data all (i + 1) ws n.1
        (λ k m v s e. at (suc k) m v (omega arith) e))

-- Picking undoes drawing: where a feature was drawn, `getPickedConnections` does not fail, and it
-- answers with the trains that use the polyline whose points were drawn, or with the walk whose
-- polyline was drawn, if each walk's id is its place in `walkData`.
pub features_of-IsPicked :
    (trip_data : Option TripData) (walks : List WalkEntry) (fs : List Feature)
    → IsNumbered 0 walks
    → features_of trip_data (some walks) ≡ some fs
    → All (IsPicked trip_data walks) fs
unfolding features_of
features_of-IsPicked trip_data walks fs n e = elim (Option-cases (trip_data_features trip_data)) [
  | inl f ↦ let e' = rw f at e in cc
  | inr (ts, f) ↦
      let same : ts ++ walk_features walks ≡ fs = cc in
      rw (← same) (
        All-append (IsPicked trip_data walks) ts (walk_features walks)
          (Holds-some (All (IsPicked trip_data walks)) (trip_data_features trip_data)
            (trips-IsPicked trip_data walks) f)
          (walk_features-IsPicked trip_data walks 0 walks n
            (λ k m w s g. subst (λ j. get_elem? walks j ≡ some w) (omega arith) g)))
]
