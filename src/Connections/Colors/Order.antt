-- ===== src/Connections/Colors/Order.antt =====
-- Which connections of ui/web/js/railviz/path_connections.js share a colour, and which are drawn on
-- top.
use motis.Prelude.{
  ◌+◌, ◌*◌, ◌/◌, not, ◌&&◌, ◌≡◌, ◌≢◌, ◌<◌, ap, true, some, String, get_elem?-some, arith,
}
use motis.Prelude.Int.{ℤ, pos, negsuc, pos_part, neg_part, ◌+ℤ◌, ltb_ℤ}
use motis.ConnectionManager.Ids.Best.{precedes}
use motis.Connections.Colors.{colors, color_index, min_cid_to_color, sort_key}

color_index-lt : (a : ℤ) → color_index a < 12
unfolding color_index
color_index-lt a = ground arith

-- Every id has a colour.
pub min_cid_to_color-some : (a : ℤ) → (c : String) × (min_cid_to_color (some a) ≡ some c)
unfolding min_cid_to_color
min_cid_to_color-some a = get_elem?-some colors (color_index a) (color_index-lt a)

-- The index is the remainder of the id on division by 12, as in mathematics: the id is 12 times some
-- number q, plus the index.
pub color_index-mod :
    (a : ℤ)
    → (q : ℤ) × (pos_part a + 12 * neg_part q ≡ 12 * pos_part q + color_index a + neg_part a)
      × (color_index a < 12)
unfolding color_index
color_index-mod (pos n) = (pos (n / 12), omega arith, omega arith)
color_index-mod (negsuc n) = (negsuc (n / 12), ground arith, ground arith)

-- Of two ids from 1 on, or two below 1, the one that `cIdCombine` selects is drawn on top; but each
-- id below 0 is drawn on top of each from 1 on, though `cIdCombine` selects the latter.
sort_key-order :
    (a b : ℤ)
    → a ≢ b
    → precedes a b ≡ true
    → neg_part b < 1000000000
    → ltb_ℤ (sort_key b) (sort_key a) ≡ not (ltb_ℤ (pos 0) a && ltb_ℤ b (pos 0))
unfolding sort_key ◌+ℤ◌
sort_key-order (pos m) (pos n) ne p big = let ne' : m ≢ n = λ e. ne (ap pos e) in ground arith
sort_key-order (pos m) (negsuc n) ne p big = ground arith
sort_key-order (negsuc m) (pos n) ne p big = cc
sort_key-order (negsuc m) (negsuc n) ne p big =
    let ne' : m ≢ n = λ e. ne (ap negsuc e) in ground arith
