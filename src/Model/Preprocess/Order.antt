-- ===== src/Model/Preprocess/Order.antt =====
-- The order of the trains after `preprocess` (ui/web/js/railviz/model.js), and their layout.
use mathlib.Core.List.{Perm}
use motis.Prelude.{
  ℕ, ◌≤◌, ◌≡◌, true, false, List, [], ◌∷◌, map, Option, none, some, String, keep, ◌==◌,
  if◌then◌else◌, arith, All,
}
use motis.Prelude.Int.{ℤ, pos, ◌-ℤ◌, leb_ℤ}
use motis.Prelude.Sorting.{sort_by, sort_by-perm, IsSorted, sort_by-IsSorted}
use motis.Model.Geometry.{LatLng, Point, Polyline, preprocess_polyline}
use motis.Model.Train.{Train, or_zero}
use motis.Model.Preprocess.{Response, Content, has_polylines, train_le, new_trains, preprocess}

-- The order that the comparator means: a higher class first, then a longer distance.
train_le_iff :
    (l r : Train)
    → train_le l r ≡ (
        if or_zero r.clasz == or_zero l.clasz
        then leb_ℤ (pos (or_zero r.route_distance_)) (pos (or_zero l.route_distance_))
        else leb_ℤ (pos (or_zero r.clasz)) (pos (or_zero l.clasz)))
unfolding train_le ◌-ℤ◌
train_le_iff l r = ground arith

train_le_total : (l r : Train) → train_le l r ≡ false → train_le r l ≡ true
train_le_total l r h = rw (train_le_iff r l) (ground (arith, train_le_iff l r))

train_le_trans : (a b c : Train) → train_le a b ≡ true → train_le b c ≡ true → train_le a c ≡ true
train_le_trans a b c h k =
    rw (train_le_iff a c) (ground (arith, train_le_iff a b, train_le_iff b c))

train_le-clasz : (l r : Train) → train_le l r ≡ true → or_zero r.clasz ≤ or_zero l.clasz
train_le-clasz l r h = ground (arith, train_le_iff l r)

-- Each train's class is at least that of every train behind it.
abbrev pub ClassesDescend : List Train → Type 0
ClassesDescend [] = Unit
ClassesDescend (t ∷ ts) = All (λ r. or_zero r.clasz ≤ or_zero t.clasz) ts × ClassesDescend ts

All-clasz :
    (t : Train) (ts : List Train)
    → All (λ r. train_le t r ≡ true) ts
    → All (λ r. or_zero r.clasz ≤ or_zero t.clasz) ts
All-clasz t [] a = tt
All-clasz t (r ∷ ts) (h, a) = (train_le-clasz t r h, All-clasz t ts a)

IsSorted-ClassesDescend : (ts : List Train) → IsSorted train_le ts → ClassesDescend ts
IsSorted-ClassesDescend [] s = tt
IsSorted-ClassesDescend (t ∷ ts) (a, s) = (All-clasz t ts a, IsSorted-ClassesDescend ts s)

abbrev pub HasNoDistance : Train → Type 0
HasNoDistance t = t.route_distance_ ≡ none

pub same-class-le :
    (k : ℕ) (l r : Train)
    → HasNoDistance l
    → HasNoDistance r
    → (or_zero l.clasz == k) ≡ true
    → (or_zero r.clasz == k) ≡ true
    → train_le l r ≡ true
same-class-le k l r p q h e = rw (train_le_iff l r, p, q) (ground arith)

module _ (decode : String → List LatLng) (from_lng_lat : ℤ → ℤ → Point) (response : Response) where
  abbrev slots : List (Option Polyline)
  slots = map (preprocess_polyline decode from_lng_lat) response.polylines

  abbrev pub all_trains : Option (List Train)
  all_trains = new_trains response.stations slots response.trains

  pub preprocess-trains :
      (content : Content)
      → preprocess decode from_lng_lat response ≡ some content
      → (trains : List Train) × (all_trains ≡ some trains)
        × (content.trains ≡ sort_by train_le (keep has_polylines trains))
  unfolding preprocess
  preprocess-trains content e = ground arith

  -- When `preprocess` succeeds, its trains are those that have polylines, in an order in which no
  -- train stands before one of a higher class.
  pub preprocess-ClassesDescend :
      (content : Content)
      → preprocess decode from_lng_lat response ≡ some content
      → (trains : List Train) × (all_trains ≡ some trains)
        × Perm content.trains (keep has_polylines trains)
        × ClassesDescend content.trains
  preprocess-ClassesDescend content e =
      let (trains, built, sorted) = preprocess-trains content e in
      (
        trains,
        built,
        rw sorted (sort_by-perm train_le _),
        rw sorted (
            IsSorted-ClassesDescend _ (
              sort_by-IsSorted train_le train_le_total train_le_trans (keep has_polylines trains))),
      )
