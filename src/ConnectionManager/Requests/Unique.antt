-- ===== src/ConnectionManager/Requests/Unique.antt =====
-- The trips that `requestTrips` of ui/web/js/railviz/connectionmgr.js asks for.
use motis.Prelude.{
  ℕ, ◌+◌, ◌≡◌, refl, sym, ap, ◌∙◌, Bool, true, false, not, ◌||◌, List, [], ◌∷◌, ◌++◌, length, any,
  All, arith, Bool-cases, inl, inr,
}
use motis.Model.Train.{TripId}
use motis.ConnectionManager.Requests.{find_index, is_index, unique_from, unique_trips}

-- The trips on the left stand on the right in the same order.
pub data IsPart : List TripId → List TripId → Type 0 where
  nothing : IsPart [] []
  kept : (t : TripId) {us ts : List TripId} → IsPart us ts → IsPart (t ∷ us) (t ∷ ts)
  left_out : (t : TripId) {us ts : List TripId} → IsPart us ts → IsPart us (t ∷ ts)

abbrev AreDistinct : (TripId → TripId → Bool) → List TripId → Type 0
AreDistinct deep_equal [] = Unit
AreDistinct deep_equal (u ∷ us) = All (λ w. deep_equal w u ≡ false) us × AreDistinct deep_equal us

any-snoc :
    (p : TripId → Bool) (xs : List TripId) (x : TripId) → any p (xs ++ x ∷ []) ≡ (any p xs || p x)
any-snoc p [] x = ground arith
any-snoc p (y ∷ xs) x = ground (arith, any-snoc p xs x)

snoc_append :
    (xs : List TripId) (x : TripId) (ys : List TripId) → xs ++ x ∷ ys ≡ (xs ++ x ∷ []) ++ ys
snoc_append [] x ys = refl
snoc_append (y ∷ xs) x ys = ap (λ zs. y ∷ zs) (snoc_append xs x ys)

length-snoc : (xs : List TripId) (x : TripId) → length (xs ++ x ∷ []) ≡ length xs + 1
length-snoc [] x = refl
length-snoc (y ∷ xs) x = ground (arith, length-snoc xs x)

-- The search comes to the place of `v` exactly if it stops nowhere before it.
is_index-find_index :
    (p : TripId → Bool) (i : ℕ) (pre : List TripId) (v : TripId) (vs : List TripId)
    → p v ≡ true
    → is_index (i + length pre) (find_index p i (pre ++ v ∷ vs)) ≡ not (any p pre)
unfolding find_index
is_index-find_index p i [] v vs h = ground arith
is_index-find_index p i (x ∷ pre) v vs h = elim (Bool-cases (p x)) [
  | inl e ↦ rw e (ground arith)
  | inr e ↦ rw e (
      ap (λ n. is_index n (find_index p (i + 1) (pre ++ v ∷ vs))) (omega arith)
      ∙ is_index-find_index p (i + 1) pre v vs h)
]

-- Of the trips `ts` after the trips `pre`, `us` are the first ones of their kind.
pub record FirstOnes (deep_equal : TripId → TripId → Bool) (pre ts us : List TripId) : Type 0 where
  pub part : IsPart us ts
  pub new : All (λ u. any (deep_equal u) pre ≡ false) us
  pub distinct : AreDistinct deep_equal us
  pub same :
      (t : TripId)
      → (any (deep_equal t) pre || any (deep_equal t) us)
        ≡ (any (deep_equal t) pre || any (deep_equal t) ts)

or_left : (a b : Bool) → (a || b) ≡ false → a ≡ false
or_left a b e = ground arith

or_right : (a b : Bool) → (a || b) ≡ false → b ≡ false
or_right a b e = ground arith

or_assoc : (a d o w : Bool) → ((a || d) || o) ≡ ((a || d) || w) → (a || (d || o)) ≡ (a || (d || w))
or_assoc a d o w h = ground arith

or_absorb :
    (a d o w : Bool)
    → (d ≡ true → a ≡ true)
    → ((a || d) || o) ≡ ((a || d) || w)
    → (a || o) ≡ (a || (d || w))
or_absorb true d o w k h = refl
or_absorb false true o w k h = absurd (f (k refl))
  where
    f : false ≡ true → ⊥
    f e = cc
or_absorb false false o w k h = h

module _ (deep_equal : TripId → TripId → Bool) (reflexive : (a : TripId) → deep_equal a a ≡ true)
    (transitive : (a b c : TripId)
      → deep_equal a b ≡ true
      → deep_equal b c ≡ true
      → deep_equal a c ≡ true) where
  any-transitive :
      (t v : TripId) (xs : List TripId)
      → deep_equal t v ≡ true
      → any (deep_equal v) xs ≡ true
      → any (deep_equal t) xs ≡ true
  any-transitive t v [] h e = cc
  any-transitive t v (x ∷ xs) h e = elim (Bool-cases (deep_equal v x)) [
    | inl f ↦ rw (transitive t v x h f) refl
    | inr f ↦ rw (any-transitive t v xs h (rw f at e)) (ground arith)
  ]

  -- What is new after `pre ++ v` is new after `pre`, and is not equal to `v`.
  new_before :
      (pre : List TripId) (v : TripId) (us : List TripId)
      → All (λ u. any (deep_equal u) (pre ++ v ∷ []) ≡ false) us
      → All (λ u. any (deep_equal u) pre ≡ false) us × All (λ u. deep_equal u v ≡ false) us
  new_before pre v [] h = (tt, tt)
  new_before pre v (u ∷ us) h =
      let (old, other) = new_before pre v us h.1 in
      let both : (any (deep_equal u) pre || deep_equal u v) ≡ false =
        sym (any-snoc (deep_equal u) pre v) ∙ h.0 in
      ((or_left _ _ both, old), (or_right _ _ both, other))

  keep-FirstOnes :
      (pre : List TripId) (v : TripId) (ts us : List TripId)
      → any (deep_equal v) pre ≡ false
      → FirstOnes deep_equal (pre ++ v ∷ []) ts us
      → FirstOnes deep_equal pre (v ∷ ts) (v ∷ us)
  keep-FirstOnes pre v ts us e f =
      let (old, other) = new_before pre v us f.new in
      record {
        part = kept v f.part;
        new = (e, old);
        distinct = (other, f.distinct);
        same = λ t.
            or_assoc (any (deep_equal t) pre) (deep_equal t v) (any (deep_equal t) us)
              (any (deep_equal t) ts) (rw (any-snoc (deep_equal t) pre v) at (f.same t));
      }

  drop-FirstOnes :
      (pre : List TripId) (v : TripId) (ts us : List TripId)
      → any (deep_equal v) pre ≡ true
      → FirstOnes deep_equal (pre ++ v ∷ []) ts us
      → FirstOnes deep_equal pre (v ∷ ts) us
  drop-FirstOnes pre v ts us e f = record {
    part = left_out v f.part;
    new = (new_before pre v us f.new).0;
    distinct = f.distinct;
    same = λ t.
        or_absorb (any (deep_equal t) pre) (deep_equal t v) (any (deep_equal t) us)
          (any (deep_equal t) ts) (λ h. any-transitive t v pre h e)
          (rw (any-snoc (deep_equal t) pre v) at (f.same t));
  }

  unique_from-FirstOnes :
      (all pre ts : List TripId) (i : ℕ)
      → all ≡ pre ++ ts
      → i ≡ 0 + length pre
      → FirstOnes deep_equal pre ts (unique_from deep_equal all i ts)
  unfolding unique_from
  unique_from-FirstOnes all pre [] i e n = record {
    part = nothing;
    new = tt;
    distinct = tt;
    same = λ t. refl;
  }
  unique_from-FirstOnes all pre (v ∷ ts) i e n =
      let rest =
        unique_from-FirstOnes all (pre ++ v ∷ []) ts (i + 1) (e ∙ snoc_append pre v ts)
          (omega (arith, n, length-snoc pre v)) in
      let found : is_index i (find_index (deep_equal v) 0 all) ≡ not (any (deep_equal v) pre) =
        rw (e, n) (is_index-find_index (deep_equal v) 0 pre v ts (reflexive v)) in
      elim (Bool-cases (any (deep_equal v) pre)) [
        | inl old ↦ rw (found, old) (drop-FirstOnes pre v ts _ old rest)
        | inr new ↦ rw (found, new) (keep-FirstOnes pre v ts _ new rest)
      ]

  -- If `deepEqual` is reflexive and transitive, the filter keeps trips of the list in their order, no
  -- later one of which equals an earlier one, and a trip equals one of those that are kept exactly if
  -- it equals one of the list.
  pub unique_trips-FirstOnes :
      (trips : List TripId) → FirstOnes deep_equal [] trips (unique_trips deep_equal trips)
  unfolding unique_trips
  unique_trips-FirstOnes trips = unique_from-FirstOnes trips [] trips 0 refl (omega arith)
