-- ===== src/ConnectionManager/Ids.antt =====
-- `cIdCombine` of ui/web/js/railviz/connectionmgr.js. An id is a number, `none` is undefined.
pub mod Best
use motis.Prelude.{Bool, true, false, ◌&&◌, ◌||◌, List, [], ◌∷◌, Option, none, some, if◌then◌else◌}
use motis.Prelude.Int.{ℤ, pos, negsuc, leb_ℤ}

abbrev pub is_negative : Option ℤ → Bool
is_negative (some (negsuc n)) = true
is_negative (some (pos n)) = false
is_negative none = false

abbrev pub is_undefined : Option ℤ → Bool
is_undefined none = true
is_undefined (some a) = false

-- `Math.max` and `Math.min` of two numbers; with undefined the result would be NaN, which the tests
-- before them rule out.
abbrev max_id : Option ℤ → Option ℤ → Option ℤ
max_id (some a) (some b) = some (if leb_ℤ a b then b else a)
max_id none b = none
max_id (some a) none = none

abbrev min_id : Option ℤ → Option ℤ → Option ℤ
min_id (some a) (some b) = some (if leb_ℤ a b then a else b)
min_id none b = none
min_id (some a) none = none

unfoldable pub cid_combine : Option ℤ → Option ℤ → Option ℤ
cid_combine a b =
    if is_negative a && is_negative b
    then max_id a b
    else if is_undefined a || is_negative a
    then b
    else if is_undefined b || is_negative b
    then a
    else min_id a b

-- `ids.reduce(cIdCombine)` from the first id on.
unfoldable pub combine_from : Option ℤ → List ℤ → Option ℤ
combine_from acc [] = acc
combine_from acc (id ∷ ids) = combine_from (cid_combine acc (some id)) ids

-- `none` is the TypeError of `reduce` on an empty array.
unfoldable pub reduce_ids : List ℤ → Option ℤ
reduce_ids [] = none
reduce_ids (id ∷ ids) = combine_from (some id) ids
