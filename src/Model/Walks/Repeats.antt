-- ===== src/Model/Walks/Repeats.antt =====
-- `doublesToLngLats` drops repeated points and nothing else.
use motis.Prelude.{
  ◌≡◌, ap, true, false, List, [], ◌∷◌, Option, none, some, arith, Bool-cases, inl, inr,
}
use motis.Prelude.Int.{ℤ, eq_ℤ_iff}
use motis.Model.Geometry.{LatLng}
use motis.Model.Walks.{lat_lng, same_lng_lat, is_new, push_lng_lats, doubles_to_lng_lats}

-- The points of a flat list of latitudes and longitudes, repeated ones included.
abbrev pub points : List ℤ → List LatLng
points [] = []
points (lat ∷ []) = []
points (lat ∷ lng ∷ src) = lat_lng lat lng ∷ points src

-- No point stands beside an equal one.
abbrev pub NoRepeat : Option LatLng → List LatLng → Type 0
NoRepeat last [] = Unit
NoRepeat last (p ∷ ps) = (is_new same_lng_lat last p ≡ true) × NoRepeat (some p) ps

push_lng_lats-NoRepeat :
    (last : Option LatLng) (src : List ℤ) → NoRepeat last (push_lng_lats last src)
unfolding push_lng_lats
push_lng_lats-NoRepeat last [] = tt
push_lng_lats-NoRepeat last (lat ∷ []) = tt
push_lng_lats-NoRepeat last (lat ∷ lng ∷ src) =
    elim (Bool-cases (is_new same_lng_lat last (lat_lng lat lng))) [
      | inl e ↦ rw e (e, push_lng_lats-NoRepeat (some (lat_lng lat lng)) src)
      | inr e ↦ rw e (push_lng_lats-NoRepeat last src)
    ]

-- `ps` is `qs` with repeats of a point put behind it: each point of `ps` is the next of `qs`, or
-- equals the last one that was passed.
pub data Repeats : Option LatLng → List LatLng → List LatLng → Type 0 where
  done : {last : Option LatLng} → Repeats last [] []
  next :
      {last : Option LatLng} (p : LatLng) {ps qs : List LatLng}
      → Repeats (some p) ps qs
      → Repeats last (p ∷ ps) (p ∷ qs)
  again : (p : LatLng) {ps qs : List LatLng} → Repeats (some p) ps qs → Repeats (some p) (p ∷ ps) qs

same-eq : (a b : LatLng) → same_lng_lat a b ≡ true → a ≡ b
same-eq a b h = ground (arith, eq_ℤ_iff a.lng b.lng, eq_ℤ_iff a.lat b.lat)

old-eq : (last : Option LatLng) (p : LatLng) → is_new same_lng_lat last p ≡ false → last ≡ some p
old-eq none p h = cc
old-eq (some q) p h = ap some (same-eq q p (ground arith))

push_lng_lats-Repeats :
    (last : Option LatLng) (src : List ℤ) → Repeats last (points src) (push_lng_lats last src)
unfolding push_lng_lats
push_lng_lats-Repeats last [] = done
push_lng_lats-Repeats last (lat ∷ []) = done
push_lng_lats-Repeats last (lat ∷ lng ∷ src) =
    elim (Bool-cases (is_new same_lng_lat last (lat_lng lat lng))) [
      | inl e ↦ rw e (next (lat_lng lat lng) (push_lng_lats-Repeats (some (lat_lng lat lng)) src))
      | inr e ↦
          rw (e, old-eq last (lat_lng lat lng) e)
            (again (lat_lng lat lng) (push_lng_lats-Repeats (some (lat_lng lat lng)) src))
    ]

-- The points of the result are those of the source with immediate repeats left out, in order: no
-- point of the result stands beside an equal one, and each point of the source is the next one of
-- the result or repeats the last.
pub doubles_to_lng_lats-Repeats :
    (src : List ℤ)
    → NoRepeat none (doubles_to_lng_lats src) × Repeats none (points src) (doubles_to_lng_lats src)
unfolding doubles_to_lng_lats
doubles_to_lng_lats-Repeats src = (push_lng_lats-NoRepeat none src, push_lng_lats-Repeats none src)
