-- ===== src/Protocol/Sorting.antt =====
-- tools/protocol/src/util/sort.ts: the order of the type names. A name is the list of its parts, and a
-- part the list of its character codes.
pub mod Lexicographic
use Prim.Native.String.{String}
use motis.Prelude.{
  ℕ, zero, suc, ◌-◌, Bool, true, false, not, ◌&&◌, List, [], ◌∷◌, map, ltb, ◌==◌, if◌then◌else◌,
  length, codes,
}
use motis.Prelude.Int.{ℤ, pos, negsuc, sub_ℕ}
use motis.Prelude.Sorting.{sort_by}
use motis.Protocol.Names.{split_dots}

-- `a < b` on texts, and `a === b`.
abbrev pub text_lt : List ℕ → List ℕ → Bool
text_lt s [] = false
text_lt [] (d ∷ t) = true
text_lt (c ∷ s) (d ∷ t) = if c == d then text_lt s t else ltb c d

abbrev pub text_eq : List ℕ → List ℕ → Bool
text_eq [] [] = true
text_eq [] (d ∷ t) = false
text_eq (c ∷ s) [] = false
text_eq (c ∷ s) (d ∷ t) = c == d && text_eq s t

abbrev pub text_le : List ℕ → List ℕ → Bool
text_le s t = not (text_lt t s)

abbrev pub is_lower_case : List ℕ → Bool
is_lower_case c = text_le (b'a' ∷ []) c && text_le c (b'z' ∷ [])

abbrev pub is_upper_case : List ℕ → Bool
is_upper_case c = text_le (b'A' ∷ []) c && text_le c (b'Z' ∷ [])

-- The `if` chain for two parts that differ.
unfoldable pub compare_parts : List ℕ → List ℕ → ℤ
compare_parts a b =
    if is_lower_case a && is_upper_case b
    then pos 1
    else if is_upper_case a && is_lower_case b
    then negsuc 0
    else if text_lt b a
    then pos 1
    else negsuc 0

-- The loop, with the parts that are left; the difference of the lengths is that of what is left.
unfoldable pub compare_from : List (List ℕ) → List (List ℕ) → ℤ
unfolding compare_parts
compare_from [] bs = sub_ℕ 0 (length bs)
compare_from (a ∷ as') [] = sub_ℕ (length (a ∷ as')) 0
compare_from (a ∷ as') (b ∷ bs) = if text_eq a b then compare_from as' bs else compare_parts a b

abbrev pub parts_of : String → List (List ℕ)
parts_of s = map codes (split_dots s)

unfoldable pub compare_fqtns : String → String → ℤ
unfolding compare_from
compare_fqtns a b = compare_from (parts_of a) (parts_of b)

abbrev pub is_negative : ℤ → Bool
is_negative (pos n) = false
is_negative (negsuc n) = true

abbrev pub is_positive : ℤ → Bool
is_positive (pos zero) = false
is_positive (pos (suc n)) = true
is_positive (negsuc n) = false

-- `types.sort(compareFqtns)`
unfoldable pub sort_types : List String → List String
unfolding compare_fqtns
sort_types types = sort_by (λ a b. not (is_negative (compare_fqtns b a))) types
