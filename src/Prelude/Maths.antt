-- ===== src/Prelude/Maths.antt =====
-- What the scripts use of `Math`, over scaled integers: `Math.sqrt` rounds down to the unit.
use motis.Prelude.{
  ℕ, zero, suc, ◌+◌, ◌*◌, ◌≤◌, ◌<◌, ◌≡◌, refl, arith, leb, if◌then◌else◌, List, [], ◌∷◌, take,
  get_elem?, some, length,
}

unfoldable pub sqrt : ℕ → ℕ
sqrt zero = 0
sqrt (suc n) = let r = sqrt n in if leb ((r + 1) * (r + 1)) (suc n) then r + 1 else r

-- The square root of a square is exact, and otherwise the next lower whole number.
pub sqrt_bounds : (n : ℕ) → (sqrt n * sqrt n ≤ n) × (n < (sqrt n + 1) * (sqrt n + 1))
unfolding sqrt
sqrt_bounds zero = (omega arith, omega arith)
sqrt_bounds (suc n) = (grind (arith, sqrt_bounds n), grind (arith, sqrt_bounds n))

abbrev pub sum : List ℕ → ℕ
sum [] = 0
sum (x ∷ xs) = x + sum xs

pub sum-take-le : (k : ℕ) (xs : List ℕ) → sum (take k xs) ≤ sum xs
sum-take-le zero xs = omega arith
sum-take-le (suc k) [] = omega arith
sum-take-le (suc k) (x ∷ xs) = omega (arith, sum-take-le k xs)

pub sum-take-suc :
    (k : ℕ) (xs : List ℕ) {x : ℕ}
    → get_elem? xs k ≡ some x
    → sum (take (suc k) xs) ≡ sum (take k xs) + x
sum-take-suc k [] h = cc
sum-take-suc zero (y ∷ xs) h = ground arith
sum-take-suc (suc k) (y ∷ xs) h = omega (arith, sum-take-suc k xs h)

pub take_of_length : (xs : List ℕ) → take (length xs) xs ≡ xs
take_of_length [] = refl
take_of_length (x ∷ xs) = rw (take_of_length xs)
