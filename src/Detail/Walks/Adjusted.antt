-- ===== src/Detail/Walks/Adjusted.antt =====
-- An adjusted walk of ui/web/js/railviz/path_detail.js meets the trains before and after it.
use motis.Prelude.{
  ℕ, zero, suc, ◌-◌, ◌+◌, ◌<◌, ◌≡◌, refl, ap, ◌∙◌, Bool, false, String, str_eq, keep, ◌&&◌, ◌||◌,
  List, [], ◌∷◌, ◌++◌, Option, none, some, get_elem?, length, length-append, ltb, arith, Bool-cases,
  inl, inr,
}
use motis.Prelude.Int.{ℤ, eq_ℤ_iff}
use motis.Model.Geometry.{LatLng}
use mathlib.Core.Option
use motis.Model.Train.{Train, first_coordinate, last_coordinate}
use motis.Detail.Walks.{
  DetailTrain, ends_at, arrivals, departures, load_adjusted_walk, differs, from_end, add_start,
  add_end, adjust, adjust_walk,
}

-- The first point of a polyline.
abbrev pub StartsAt : LatLng → List ℤ → Type 0
StartsAt c wp = (get_elem? wp 0 ≡ some c.lat) × (get_elem? wp 1 ≡ some c.lng)

-- The last point of a polyline.
abbrev pub EndsAt : LatLng → List ℤ → Type 0
EndsAt c wp = (from_end 2 wp ≡ some c.lat) × (from_end 1 wp ≡ some c.lng)

differs-some : (o : Option ℤ) (a : ℤ) → differs o a ≡ false → o ≡ some a
differs-some none a h = cc
differs-some (some b) a h = ground (arith, eq_ℤ_iff b a)

differs_self : (a : ℤ) → differs (some a) a ≡ false
differs_self a = ground arith

or-false : (a b : Bool) → (a || b) ≡ false → (a ≡ false) × (b ≡ false)
or-false a b h = ground arith

add_start-StartsAt : (c : LatLng) (wp : List ℤ) → StartsAt c (add_start c wp)
unfolding add_start
add_start-StartsAt c wp =
    elim (Bool-cases (differs (get_elem? wp 0) c.lat || differs (get_elem? wp 1) c.lng)) [
      | inl e ↦ rw e (refl, refl)
      | inr e ↦
          let (f, g) = or-false _ _ e in
          rw e (differs-some (get_elem? wp 0) c.lat f, differs-some (get_elem? wp 1) c.lng g)
    ]

add_start-again : (c : LatLng) (wp : List ℤ) → StartsAt c wp → add_start c wp ≡ wp
unfolding add_start
add_start-again c wp h = rw (h.0, h.1, differs_self c.lat, differs_self c.lng)

get_elem?-append_right {ℓ} :
    {A : Type ℓ} (xs ys : List A) (i n : ℕ)
    → n ≡ length xs + i
    → get_elem? (xs ++ ys) n ≡ get_elem? ys i
get_elem?-append_right [] ys i n e = let e' : n ≡ i = omega arith in rw e'
get_elem?-append_right (x ∷ xs) ys i zero e = absurd (omega arith)
get_elem?-append_right (x ∷ xs) ys i (suc n) e = get_elem?-append_right xs ys i n (omega arith)

get_elem?-append_left {ℓ} :
    {A : Type ℓ} (xs ys : List A) (i : ℕ) {a : A}
    → get_elem? xs i ≡ some a
    → get_elem? (xs ++ ys) i ≡ some a
get_elem?-append_left [] ys i h = cc
get_elem?-append_left (x ∷ xs) ys zero h = h
get_elem?-append_left (x ∷ xs) ys (suc i) h = get_elem?-append_left xs ys i h

from_end-append :
    (wp : List ℤ) (lat lng : ℤ) (k i : ℕ)
    → 0 < k
    → k + i ≡ 2
    → from_end k (wp ++ lat ∷ lng ∷ []) ≡ get_elem? (lat ∷ lng ∷ []) i
from_end-append wp lat lng k i pos sum =
    let long : length (wp ++ lat ∷ lng ∷ []) ≡ length wp + 2 = length-append wp (lat ∷ lng ∷ []) in
    let enough : ltb (length (wp ++ lat ∷ lng ∷ [])) k ≡ false = ground arith in
    rw enough (
      get_elem?-append_right wp (lat ∷ lng ∷ []) i (length (wp ++ lat ∷ lng ∷ []) - k)
        (omega arith))

add_end-EndsAt : (c : LatLng) (wp : List ℤ) → EndsAt c (add_end c wp)
unfolding add_end
add_end-EndsAt c wp =
    elim (Bool-cases (differs (from_end 2 wp) c.lat || differs (from_end 1 wp) c.lng)) [
      | inl e ↦ rw e (
        from_end-append wp c.lat c.lng 2 0 (omega arith) (omega arith),
        from_end-append wp c.lat c.lng 1 1 (omega arith) (omega arith),
      )
      | inr e ↦
          let (f, g) = or-false _ _ e in
          rw e (differs-some (from_end 2 wp) c.lat f, differs-some (from_end 1 wp) c.lng g)
    ]

add_end-again : (c : LatLng) (wp : List ℤ) → EndsAt c wp → add_end c wp ≡ wp
unfolding add_end
add_end-again c wp h = rw (h.0, h.1, differs_self c.lat, differs_self c.lng)

StartsAt-add_end : (a c : LatLng) (wp : List ℤ) → StartsAt a wp → StartsAt a (add_end c wp)
unfolding add_end
StartsAt-add_end a c wp h =
    elim (Bool-cases (differs (from_end 2 wp) c.lat || differs (from_end 1 wp) c.lng)) [
      | inl e ↦ rw e (get_elem?-append_left wp _ 0 h.0, get_elem?-append_left wp _ 1 h.1)
      | inr e ↦ rw e h
    ]

adjust_walk-meets :
    (arrival departure : LatLng) (wp : List ℤ)
    → let wp' = adjust_walk (arrival ∷ []) (departure ∷ []) wp in
      StartsAt arrival wp' × EndsAt departure wp'
unfolding adjust_walk adjust
adjust_walk-meets arrival departure wp = (
  StartsAt-add_end arrival departure (add_start arrival wp) (add_start-StartsAt arrival wp),
  add_end-EndsAt departure (add_start arrival wp),
)

-- The highlighted trains that arrive at a station, and those that depart from one.
abbrev pub arriving_at : String → List DetailTrain → List DetailTrain
arriving_at station ts = keep (λ t. str_eq t.train.a_station_id station && t.highlight) ts

abbrev pub departing_from : String → List DetailTrain → List DetailTrain
departing_from station ts = keep (λ t. str_eq t.train.d_station_id station && t.highlight) ts

abbrev gather : (Train → Option LatLng) → List DetailTrain → Option (List LatLng)
gather coordinate [] = some []
gather coordinate (t ∷ ts) =
    Option.bind (coordinate t.train) λ c. Option.map (λ cs. c ∷ cs) (gather coordinate ts)

ends_at-keep :
    (p : DetailTrain → Bool) (coordinate : Train → Option LatLng) (ts : List DetailTrain)
    → ends_at p coordinate ts ≡ gather coordinate (keep (λ t. p t && t.highlight) ts)
unfolding ends_at
ends_at-keep p coordinate [] = refl
ends_at-keep p coordinate (t ∷ ts) = elim (Bool-cases (p t && t.highlight)) [
  | inl e ↦ rw (e, ends_at-keep p coordinate ts) refl
  | inr e ↦ rw (e, ends_at-keep p coordinate ts) refl
]

gather-single :
    (coordinate : Train → Option LatLng) (t : DetailTrain) (c : LatLng) (ts : List DetailTrain)
    → ts ≡ t ∷ []
    → coordinate t.train ≡ some c
    → gather coordinate ts ≡ some (c ∷ [])
unfolding Option.bind
gather-single coordinate t c ts e f = rw (e, f) refl

-- If a single highlighted train arrives where the walk begins and a single one departs where it ends,
-- and these have coordinates, the walk is adjusted without an error and then runs from the arriving
-- train's last point to the departing train's first.
pub load_adjusted_walk-meets :
    (from to : String) (ts : List DetailTrain) (wp : List ℤ) (a d : DetailTrain) {x y : LatLng}
    → arriving_at from ts ≡ a ∷ []
    → departing_from to ts ≡ d ∷ []
    → last_coordinate a.train ≡ some x
    → first_coordinate d.train ≡ some y
    → (wp' : List ℤ) × (load_adjusted_walk from to ts wp ≡ some wp') × StartsAt x wp' × EndsAt y wp'
unfolding load_adjusted_walk arrivals departures Option.bind
load_adjusted_walk-meets from to ts wp a d {x} {y} one_arrives one_departs last first =
    let arriving =
      ends_at-keep (λ t. str_eq t.train.a_station_id from) last_coordinate ts
      ∙ gather-single last_coordinate a x _ one_arrives last in
    let departing =
      ends_at-keep (λ t. str_eq t.train.d_station_id to) first_coordinate ts
      ∙ gather-single first_coordinate d y _ one_departs first in
    let (starts, ends) = adjust_walk-meets x y wp in
    rw (arriving, departing) (_, refl, starts, ends)

adjust_end-again :
    (departing : List LatLng) (wp : List ℤ)
    → adjust add_end departing (adjust add_end departing wp) ≡ adjust add_end departing wp
unfolding adjust
adjust_end-again [] wp = refl
adjust_end-again (d ∷ []) wp = add_end-again d (add_end d wp) (add_end-EndsAt d wp)
adjust_end-again (d ∷ e ∷ ds) wp = refl

start-stays :
    (arriving departing : List LatLng) (wp : List ℤ)
    → adjust add_start arriving (adjust add_end departing (adjust add_start arriving wp))
      ≡ adjust add_end departing (adjust add_start arriving wp)
unfolding adjust
start-stays [] departing wp = refl
start-stays (a ∷ b ∷ more) departing wp = refl
start-stays (a ∷ []) [] wp = add_start-again a (add_start a wp) (add_start-StartsAt a wp)
start-stays (a ∷ []) (d ∷ []) wp =
    add_start-again a (add_end d (add_start a wp))
      (StartsAt-add_end a d (add_start a wp) (add_start-StartsAt a wp))
start-stays (a ∷ []) (d ∷ e ∷ ds) wp = add_start-again a (add_start a wp) (add_start-StartsAt a wp)

-- To adjust a walk again, as every refresh of the detail view does with the polyline that was changed
-- in place, changes nothing more, however many trains arrive and depart.
pub adjust_walk-idempotent :
    (arriving departing : List LatLng) (wp : List ℤ)
    → adjust_walk arriving departing (adjust_walk arriving departing wp)
      ≡ adjust_walk arriving departing wp
unfolding adjust_walk
adjust_walk-idempotent arriving departing wp =
    ap (adjust add_end departing) (start-stays arriving departing wp)
    ∙ adjust_end-again departing (adjust add_start arriving wp)
