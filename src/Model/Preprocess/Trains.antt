-- ===== src/Model/Preprocess/Trains.antt =====
-- The trains that `preprocess` of ui/web/js/railviz/model.js delivers.
use motis.Prelude.{
  ℕ, ◌<◌, ◌≡◌, refl, Bool, true, List, [], ◌∷◌, map, Option, none, some, String, keep, length, ◌==◌,
  arith, All, Holds, Holds-map, Holds-some, inl, inr, Bool-cases,
}
use mathlib.Core.Option
use motis.Prelude.Int.{ℤ}
use motis.Prelude.Sorting.{keep-sort_by, All-sort_by}
use motis.Model.Geometry.{LatLng, Point, Polyline, preprocess_polyline}
use motis.Model.Geometry.Measure.{preprocess_polyline-IsMeasured}
use motis.Model.Train.{
  Station, TrainData, Train, Polylines, resolve_polylines, new_train, or_zero, default_info,
}
use motis.Model.Train.Layout.{IsLaidOut, HasPoints, SlotIsUsable, IsNew, new_train-IsNew}
use motis.Model.Position.Update.{IsHidden}
use motis.Model.Preprocess.{Response, Content, has_polylines, train_le, new_trains, preprocess}
use motis.Model.Preprocess.Order.{HasNoDistance, same-class-le, preprocess-trains, all_trains}

All-keep {ℓ κ} :
    {A : Type ℓ} (P : A → Type κ) (p : A → Bool) (xs : List A) → All P xs → All P (keep p xs)
All-keep P p [] a = tt
All-keep P p (x ∷ xs) (q, a) = elim (Bool-cases (p x)) [
  | inl e ↦ rw e (q, All-keep P p xs a)
  | inr e ↦ rw e (All-keep P p xs a)
]

module _ (stations : List Station) (slots : List (Option Polyline)) where
  -- A statement that the constructor makes true of each train holds of all.
  All-new_trains :
      (P : TrainData → Type 0) (Q : Train → Type 0)
      → ((t : TrainData) → P t → Holds Q (new_train stations slots t))
      → (ts : List TrainData) → All P ts
      → Holds (All Q) (new_trains stations slots ts)
  unfolding new_trains Option.bind
  All-new_trains P Q each [] a = tt
  All-new_trains P Q each (t ∷ ts) (p, a) =
      first (new_train stations slots t) (each t p) (All-new_trains P Q each ts a)
    where
      first :
          (m : Option Train)
          → Holds Q m
          → Holds (All Q) (new_trains stations slots ts)
          → Holds (All Q) (
              Option.bind m
                λ train. Option.map (λ trains. train ∷ trains) (new_trains stations slots ts))
      first none q rest = tt
      first (some train) q rest =
          Holds-map (All Q) (λ trains. train ∷ trains) (new_trains stations slots ts)
            (both (new_trains stations slots ts) rest)
        where
          both :
              (ms : Option (List Train))
              → Holds (All Q) ms
              → Holds (λ trains. All Q (train ∷ trains)) ms
          both none r = tt
          both (some trains) r = (q, r)

  new_train-HasNoDistance :
      (t : TrainData) → t.route_distance_ ≡ none → Holds HasNoDistance (new_train stations slots t)
  unfolding new_train default_info
  new_train-HasNoDistance t h =
      Holds-map HasNoDistance _ (resolve_polylines slots 0 t.indices)
        (always (resolve_polylines slots 0 t.indices))
    where
      always : (m : Option Polylines) → Holds (λ p. t.route_distance_ ≡ none) m
      always none = tt
      always (some p) = h

-- What the map needs of a train before it is drawn for the first time.
abbrev pub IsDrawable : Train → Type 0
IsDrawable t = IsLaidOut t × IsHidden t

abbrev pub DrawableIfPoints : Train → Type 0
DrawableIfPoints t =
    IsHidden t × (0 < length t.polylines) × (All HasPoints t.polylines → IsDrawable t)

abbrev DrawableIfShown : Train → Type 0
DrawableIfShown t = has_polylines t ≡ true → DrawableIfPoints t

IsNew-DrawableIfShown : {t : TrainData} {train : Train} → IsNew t train → DrawableIfShown train
IsNew-DrawableIfShown {t} {train} n shown =
    let hidden : IsHidden train = (n.no_polyline, n.no_line) in
    let some_polylines : 0 < length train.polylines = ground arith in
    (hidden, some_polylines, laid_out hidden some_polylines)
  where
    laid_out :
        IsHidden train
        → 0 < length train.polylines
        → All HasPoints train.polylines
        → IsDrawable train
    laid_out hidden nonempty points =
        let (m, c) = n.laid_out points in
        (record { contiguous = c; nonempty = nonempty; measured = m }, hidden)

shown-IsDrawable :
    (ts : List Train) → All DrawableIfShown ts → All DrawableIfPoints (keep has_polylines ts)
shown-IsDrawable [] a = tt
shown-IsDrawable (t ∷ ts) (d, a) = elim (Bool-cases (has_polylines t)) [
  | inl e ↦ rw e (d e, shown-IsDrawable ts a)
  | inr e ↦ rw e (shown-IsDrawable ts a)
]

module _ (decode : String → List LatLng) (from_lng_lat : ℤ → ℤ → Point) (response : Response)
    {content : Content} (ok : preprocess decode from_lng_lat response ≡ some content) where
  -- No train of the response has a field `route_distance_` (its schema has none of that name): then
  -- the trains of a class stay in the order in which the server sent them, whatever their distance.
  preprocess-same_class :
      All (λ t. t.route_distance_ ≡ none) response.trains
      → (k : ℕ)
      → (trains : List Train) × (all_trains decode from_lng_lat response ≡ some trains)
        × (keep (λ t. or_zero t.clasz == k) content.trains
            ≡ keep (λ t. or_zero t.clasz == k) (keep has_polylines trains))
  preprocess-same_class h k =
      let (trains, built, sorted) = preprocess-trains decode from_lng_lat response content ok in
      let plain : All HasNoDistance trains =
        Holds-some (All HasNoDistance) _
          (All-new_trains _ _ (λ t. t.route_distance_ ≡ none) HasNoDistance
            (new_train-HasNoDistance _ _) response.trains h)
          built in
      (
        trains,
        built,
        rw sorted (
            keep-sort_by train_le (λ t. or_zero t.clasz == k) HasNoDistance (same-class-le k)
              (keep has_polylines trains) (All-keep HasNoDistance has_polylines trains plain)),
      )

  HasLines : String → Type 0
  HasLines str = Holds (λ p. 0 < p.line_count) (preprocess_polyline decode from_lng_lat str)

  slot-IsUsable :
      (str : String) → HasLines str → SlotIsUsable (preprocess_polyline decode from_lng_lat str)
  unfolding HasLines
  slot-IsUsable str h = of_value (preprocess_polyline decode from_lng_lat str) refl h
    where
      of_value :
          (m : Option Polyline)
          → preprocess_polyline decode from_lng_lat str ≡ m
          → Holds (λ p. 0 < p.line_count) m
          → SlotIsUsable m
      of_value none e h = tt
      of_value (some p) e h = record {
        measured = preprocess_polyline-IsMeasured decode from_lng_lat str e;
        has_line = h;
      }

  slots-are-usable :
      (strs : List String)
      → All HasLines strs
      → All SlotIsUsable (map (preprocess_polyline decode from_lng_lat) strs)
  slots-are-usable [] a = tt
  slots-are-usable (str ∷ strs) (h, a) = (slot-IsUsable str h, slots-are-usable strs a)

  -- If no polyline of the response decodes to a single point, every train that `preprocess`
  -- delivers has at least one polyline and no position yet; and if its polylines all have
  -- coordinates, it is laid out along them end to end, which is what its updates need.
  pub preprocess-IsDrawable :
      All
        (λ str. Holds (λ p. 0 < p.line_count) (preprocess_polyline decode from_lng_lat str))
        response.polylines
      → All DrawableIfPoints content.trains
  unfolding HasLines
  preprocess-IsDrawable h =
      let (trains, built, sorted) = preprocess-trains decode from_lng_lat response content ok in
      let usable = slots-are-usable response.polylines h in
      let drawable : All DrawableIfShown trains =
        Holds-some (All DrawableIfShown) _
          (All-new_trains response.stations (all_slots) (λ _. Unit {0}) DrawableIfShown
            (λ t _.
              new_drawable t (new_train response.stations all_slots t)
                (new_train-IsNew response.stations all_slots t usable))
            response.trains (trivially response.trains))
          built in
      rw sorted (
        All-sort_by train_le DrawableIfPoints (keep has_polylines trains)
          (shown-IsDrawable trains drawable))
    where
      all_slots : List (Option Polyline)
      all_slots = map (preprocess_polyline decode from_lng_lat) response.polylines

      new_drawable :
          (t : TrainData) (m : Option Train) → Holds (IsNew t) m → Holds DrawableIfShown m
      new_drawable t none n = tt
      new_drawable t (some train) n = IsNew-DrawableIfShown n

      trivially : (ts : List TrainData) → All (λ _. Unit {0}) ts
      trivially [] = tt
      trivially (t ∷ ts) = (tt, trivially ts)
