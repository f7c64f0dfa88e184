-- ===== src/Connections/Colors.antt =====
-- `minCIdToColor` and the sort key of ui/web/js/railviz/path_connections.js.
pub mod Order
use motis.Prelude.{
  ℕ, ◌+◌, ◌-◌, ◌%◌, Bool, true, false, List, [], ◌∷◌, Option, none, some, String, ◌==◌,
  if◌then◌else◌, length, get_elem?,
}
use motis.Prelude.Int.{ℤ, pos, negsuc, sub_ℕ, ◌+ℤ◌}

abbrev pub colors : List String
colors =
    "#1f78b4" ∷ "#33a02c" ∷ "#e31a1c" ∷ "#ff7f00" ∷ "#6a3d9a" ∷ "#b15928" ∷ "#a6cee3" ∷ "#b2df8a"
    ∷ "#fb9a99" ∷ "#fdbf6f" ∷ "#cab2d6" ∷ "#ffff99" ∷ []

-- `minCId % colors.length` has the sign of the id; a negative remainder counts from the end.
unfoldable pub color_index : ℤ → ℕ
color_index (pos n) = n % length colors
color_index (negsuc n) = let c = (n + 1) % length colors in if c == 0 then c else length colors - c

-- `none` is undefined; an undefined id gives NaN, at which there is no colour.
unfoldable pub min_cid_to_color : Option ℤ → Option String
min_cid_to_color none = none
min_cid_to_color (some min_cid) = get_elem? colors (color_index min_cid)

-- `minCId > 0 ? -minCId : minCId + 1e9`
unfoldable pub sort_key : ℤ → ℤ
sort_key (pos n) = if n == 0 then pos 0 +ℤ pos 1000000000 else negsuc (n - 1)
sort_key (negsuc n) = negsuc n +ℤ pos 1000000000
