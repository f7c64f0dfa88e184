-- ===== src/ConnectionManager/Ids/Best.antt =====
-- Which id `cIdCombine` of ui/web/js/railviz/connectionmgr.js selects.
use motis.Prelude.{
  ◌≡◌, refl, Bool, true, false, List, [], ◌∷◌, some, if◌then◌else◌, leb, arith, All, ◌⊎◌, inl, inr,
  Bool-cases, ap, sym, ◌∙◌,
}
use motis.Prelude.Int.{ℤ, pos, negsuc}
use motis.ConnectionManager.Ids.{cid_combine, combine_from, reduce_ids}

-- Ids from 0 up come before negative ones; of two, the one nearer to 0 does.
abbrev pub precedes : ℤ → ℤ → Bool
precedes (pos m) (pos n) = leb m n
precedes (pos m) (negsuc n) = true
precedes (negsuc m) (pos n) = false
precedes (negsuc m) (negsuc n) = leb m n

pub cid_combine-precedes :
    (a b : ℤ) → cid_combine (some a) (some b) ≡ some (if precedes a b then a else b)
unfolding cid_combine
cid_combine-precedes a b = ground arith

precedes_trans : (a b c : ℤ) → precedes a b ≡ true → precedes b c ≡ true → precedes a c ≡ true
precedes_trans a b c h k = ground arith

precedes_total : (a b : ℤ) → precedes a b ≡ false → precedes b a ≡ true
precedes_total a b h = ground arith

precedes_refl : (a : ℤ) → precedes a a ≡ true
precedes_refl a = ground arith

pub precedes_antisymm : (a b : ℤ) → precedes a b ≡ true → precedes b a ≡ true → a ≡ b
precedes_antisymm a b h k = ground arith

-- One of the ids.
abbrev pub IsOneOf : ℤ → List ℤ → Type 0
IsOneOf a [] = ⊥
IsOneOf a (b ∷ bs) = (a ≡ b) ⊎ IsOneOf a bs

pub record IsBest (ids : List ℤ) (best : ℤ) : Type 0 where
  pub among : IsOneOf best ids
  pub first : All (λ id. precedes best id ≡ true) ids

combine_from-IsBest :
    (a : ℤ) (ids : List ℤ)
    → (best : ℤ) × (combine_from (some a) ids ≡ some best) × IsBest (a ∷ ids) best
unfolding combine_from
combine_from-IsBest a [] = (a, refl, record { among = inl refl; first = (precedes_refl a, tt) })
combine_from-IsBest a (b ∷ ids) = elim (Bool-cases (precedes a b)) [
  | inl e ↦
      let (best, r, h) = combine_from-IsBest a ids in
      (
        best,
        rw (cid_combine-precedes a b, e) r,
        record {
          among = elim h.among [ inl here ↦ inl here | inr there ↦ inr (inr there) ];
          first = (h.first.0, (precedes_trans best a b h.first.0 e, h.first.1));
        },
      )
  | inr e ↦
      let (best, r, h) = combine_from-IsBest b ids in
      (
        best,
        rw (cid_combine-precedes a b, e) r,
        record {
          among = inr h.among;
          first = (precedes_trans best b a h.first.0 (precedes_total a b e), h.first);
        },
      )
]

-- The ids of at least one connection combine to one of them, which comes before all the others: the
-- least that is not negative, or the greatest if all are negative.
pub reduce_ids-IsBest :
    (id : ℤ) (ids : List ℤ)
    → (best : ℤ) × (reduce_ids (id ∷ ids) ≡ some best) × IsBest (id ∷ ids) best
unfolding reduce_ids
reduce_ids-IsBest id ids = combine_from-IsBest id ids

All-IsOneOf : (P : ℤ → Type 0) (a : ℤ) (ids : List ℤ) → All P ids → IsOneOf a ids → P a
All-IsOneOf P a [] h m = absurd m
All-IsOneOf P a (b ∷ ids) h (inl e) = rw e h.0
All-IsOneOf P a (b ∷ ids) h (inr m) = All-IsOneOf P a ids h.1 m

-- Neither the order of the ids nor how often one of them stands there matters.
pub reduce_ids-same :
    (a b : ℤ) (xs ys : List ℤ)
    → ((id : ℤ) → IsOneOf id (a ∷ xs) → IsOneOf id (b ∷ ys))
    → ((id : ℤ) → IsOneOf id (b ∷ ys) → IsOneOf id (a ∷ xs))
    → reduce_ids (a ∷ xs) ≡ reduce_ids (b ∷ ys)
reduce_ids-same a b xs ys there back =
    let (x, r, h) = reduce_ids-IsBest a xs in
    let (y, s, k) = reduce_ids-IsBest b ys in
    let xy = All-IsOneOf (λ id. precedes x id ≡ true) y (a ∷ xs) h.first (back y k.among) in
    let yx = All-IsOneOf (λ id. precedes y id ≡ true) x (b ∷ ys) k.first (there x h.among) in
    r ∙ ap some (precedes_antisymm x y xy yx) ∙ sym s
