-- ===== src/Protocol/Sorting/Lexicographic.antt =====
-- The order of tools/protocol/src/util/sort.ts is the plain order of the parts.
use Prim.Native.String.{String}
use motis.Prelude.{
  ℕ, ◌≡◌, refl, Bool, true, false, not, ◌&&◌, List, [], ◌∷◌, if◌then◌else◌, arith, Bool-cases, inl,
  inr,
}
use motis.Prelude.Int.{pos, negsuc}
use motis.Protocol.Sorting.{
  text_lt, text_eq, is_lower_case, is_upper_case, compare_parts, compare_from, parts_of,
  compare_fqtns, is_negative, is_positive,
}

-- The lexicographic order of lists of parts, where the case of letters plays no part.
abbrev pub parts_lt : List (List ℕ) → List (List ℕ) → Bool
parts_lt as' [] = false
parts_lt [] (b ∷ bs) = true
parts_lt (a ∷ as') (b ∷ bs) = if text_eq a b then parts_lt as' bs else text_lt a b

abbrev pub parts_eq : List (List ℕ) → List (List ℕ) → Bool
parts_eq [] [] = true
parts_eq [] (b ∷ bs) = false
parts_eq (a ∷ as') [] = false
parts_eq (a ∷ as') (b ∷ bs) = text_eq a b && parts_eq as' bs

upper_below_lower :
    (a b : List ℕ) → is_lower_case a ≡ true → is_upper_case b ≡ true → text_lt b a ≡ true
upper_below_lower [] b h k = cc
upper_below_lower (c ∷ s) [] h k = refl
upper_below_lower (c ∷ []) (d ∷ []) h k = ground arith
upper_below_lower (c ∷ []) (d ∷ e ∷ t) h k = ground arith
upper_below_lower (c ∷ x ∷ s) (d ∷ []) h k = ground arith
upper_below_lower (c ∷ x ∷ s) (d ∷ e ∷ t) h k = ground arith

lt_asym : (a b : List ℕ) → text_lt a b ≡ true → text_lt b a ≡ false
lt_asym a [] h = cc
lt_asym [] (d ∷ t) h = refl
lt_asym (c ∷ s) (d ∷ t) h = ground (arith, lt_asym s t)

lt_total : (a b : List ℕ) → text_eq a b ≡ false → text_lt b a ≡ not (text_lt a b)
lt_total [] [] h = cc
lt_total [] (d ∷ t) h = refl
lt_total (c ∷ s) [] h = refl
lt_total (c ∷ s) (d ∷ t) h = ground (arith, lt_total s t)

eq_comm : (a b : List ℕ) → text_eq b a ≡ text_eq a b
eq_comm [] [] = refl
eq_comm [] (d ∷ t) = refl
eq_comm (c ∷ s) [] = refl
eq_comm (c ∷ s) (d ∷ t) = ground (arith, eq_comm s t)

-- The tests for the case of letters decide nothing that the order does not.
compare_parts-plain :
    (a b : List ℕ)
    → text_eq a b ≡ false
    → compare_parts a b ≡ (if text_lt a b then negsuc 0 else pos 1)
unfolding compare_parts
compare_parts-plain a b h =
    ground (
      arith,
      upper_below_lower a b,
      upper_below_lower b a,
      lt_total a b h,
      lt_asym a b,
      lt_asym b a,
    )

compare_from-sign :
    (as' bs : List (List ℕ))
    → (is_negative (compare_from as' bs) ≡ parts_lt as' bs)
      × (is_positive (compare_from as' bs) ≡ parts_lt bs as')
unfolding compare_from
compare_from-sign [] [] = (refl, refl)
compare_from-sign [] (b ∷ bs) = (ground arith, ground arith)
compare_from-sign (a ∷ as') [] = (ground arith, ground arith)
compare_from-sign (a ∷ as') (b ∷ bs) = elim (Bool-cases (text_eq a b)) [
  | inl h ↦ ground (arith, h, eq_comm a b, compare_from-sign as' bs)
  | inr h ↦ ground (arith, h, eq_comm a b, compare_parts-plain a b h, lt_total a b h, lt_asym a b)
]

-- Names are sorted by the plain order of their parts: of two names, compareFqtns is negative exactly if
-- the first part in which they differ is less in the first name, or the first name ends before; and
-- positive exactly if this holds the other way round.
pub compare_fqtns-lexicographic :
    (a b : String)
    → (is_negative (compare_fqtns a b) ≡ parts_lt (parts_of a) (parts_of b))
      × (is_positive (compare_fqtns a b) ≡ parts_lt (parts_of b) (parts_of a))
unfolding compare_fqtns
compare_fqtns-lexicographic a b = compare_from-sign (parts_of a) (parts_of b)
