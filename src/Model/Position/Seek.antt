-- ===== src/Model/Position/Seek.antt =====
-- The search loops of `updateCurrPolyline` and `updateCurrLine`: over intervals that follow one
-- another without a gap, they stop at one that holds the position.
use motis.Prelude.{ℕ, zero, suc, ◌+◌, ◌≤◌, ◌<◌, ◌≡◌, Bool, true, arith, ap, Bool-cases, inl, inr}
use native.Mathlib.Numerals.{add-one}
use motis.Model.Position.{seek}

-- `start k` is where interval `k` begins, and `n` is past the last interval.
module _ (start : ℕ → ℕ) (x : ℕ) (hit : ℕ → Bool) (n : ℕ) where
  not-last : (i rounds : ℕ) → i + suc rounds ≡ n → start (suc i) < x → x ≤ start n → 0 < rounds
  not-last i zero e past hi =
      let last : suc i ≡ n = omega arith in absurd (omega (arith, ap start last))
  not-last i (suc rounds) e past hi = omega arith

  pub seek-hits :
      (rounds i : ℕ)
      → i + rounds ≡ n
      → ((k : ℕ) → i ≤ k → k < n → start k ≤ x → x ≤ start (suc k) → hit k ≡ true)
      → 0 < rounds
      → start i ≤ x
      → x ≤ start n
      → (hit (seek rounds i hit) ≡ true) × (i ≤ seek rounds i hit) × (seek rounds i hit < n)
  unfolding seek
  seek-hits zero i e each p lo hi = absurd (omega arith)
  seek-hits (suc rounds) i e each p lo hi = elim (Bool-cases (hit i)) [
    | inl found ↦ rw found (found, omega arith, omega arith)
    | inr missed ↦
        let past : start (suc i) < x = ground (arith, each i) in
        let later =
          seek-hits rounds (i + 1) (omega arith) (λ k lo' hi'. each k (omega arith) hi')
            (not-last i rounds e past hi) (rw add-one (omega arith)) hi in
        rw missed (later.0, omega (arith, later.1), later.2)
  ]
