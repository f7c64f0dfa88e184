-- ===== src/Protocol/Filter/Spelling.antt =====
-- The regular expressions of tools/protocol/src/filter, without an order of search.
use motis.Prelude.{
  ℕ, ◌≡◌, ◌↔◌, refl, sym, ap, subst, Bool, true, ◌&&◌, List, [], ◌∷◌, ◌++◌, arith, all, ◌==◌,
  ==_iff, Bool-cases, inl, inr,
}
use motis.Protocol.Filter.{Piece, char, within_part, anything, repeated, runs_over, run, test}

-- A piece with a star runs over any text of its characters.
abbrev pub Run : Piece → (List ℕ → Type 0) → List ℕ → Type 0
Run p Rest s = (u r : List ℕ) × (s ≡ u ++ r) × (all (runs_over p) u ≡ true) × Rest r

abbrev pub Spells : List Piece → List ℕ → Type 0
Spells [] s = s ≡ []
Spells (char x ∷ ps) s = (r : List ℕ) × (s ≡ x ∷ r) × Spells ps r
Spells (within_part ∷ ps) s = Run within_part (Spells ps) s
Spells (anything ∷ ps) s = Run anything (Spells ps) s
Spells (repeated x ∷ ps) s = Run (repeated x) (Spells ps) s

module _ (p : Piece) (rest : List ℕ → Bool) (Rest : List ℕ → Type 0)
    (decides : (s : List ℕ) → (rest s ≡ true) ↔ Rest s) where
  run→Run : (s : List ℕ) → run p rest s ≡ true → Run p Rest s
  unfolding run
  run→Run [] h = ([], [], refl, refl, (decides []).0 h)
  run→Run (c ∷ s) h = elim (Bool-cases (rest (c ∷ s))) [
    | inl now ↦ ([], c ∷ s, refl, refl, (decides (c ∷ s)).0 now)
    | inr later ↦ elim (Bool-cases (runs_over p c)) [
      | inl over ↦
          let h' : run p rest s ≡ true = ground arith in
          let (u, r, e, all_over, k) = run→Run s h' in
          (c ∷ u, r, ap (λ t. c ∷ t) e, rw (over, all_over) refl, k)
      | inr stop ↦ cc (later, rw stop at h)
    ]
  ]

  Run→run : (u r : List ℕ) → all (runs_over p) u ≡ true → Rest r → run p rest (u ++ r) ≡ true
  unfolding run
  Run→run [] [] h k = (decides []).1 k
  Run→run [] (c ∷ r) h k = rw ((decides (c ∷ r)).1 k) (ground arith)
  Run→run (c ∷ u) r h k = ground (arith, Run→run u r)

  run_iff : (s : List ℕ) → (run p rest s ≡ true) ↔ Run p Rest s
  run_iff s = (
    run→Run s,
    λ (u, r, e, over, k). subst (λ t. run p rest t ≡ true) (sym e) (Run→run u r over k),
  )

-- The test of a type filter decides whether the pieces spell the name: each character stands for
-- itself, `[^.]*` for any text without a dot, `.*` for any text on one line, and a character with a
-- star for any number of it.
pub test-Spells : (ps : List Piece) (s : List ℕ) → (test ps s ≡ true) ↔ Spells ps s
unfolding test
test-Spells [] [] = (λ h. refl, λ h. refl)
test-Spells [] (c ∷ s) = (λ h. cc, λ h. cc)
test-Spells (char x ∷ ps) [] = (λ h. cc, λ (r, e, k). cc)
test-Spells (char x ∷ ps) (c ∷ s) = (
  λ h. (s, ap (λ d. d ∷ s) ((==_iff c x).0 (ground arith)), (test-Spells ps s).0 (ground arith)),
  λ (r, e, k). spelt c x s r e ((test-Spells ps r).1 k),
)
  where
    spelt :
        (c x : ℕ) (s r : List ℕ) → c ∷ s ≡ x ∷ r → test ps r ≡ true → (c == x && test ps s) ≡ true
    spelt c x s r e k =
        let head : c ≡ x = cc in let tail : s ≡ r = cc in rw ((==_iff c x).1 head, tail, k) refl
test-Spells (within_part ∷ ps) s = run_iff within_part (test ps) (Spells ps) (test-Spells ps) s
test-Spells (anything ∷ ps) s = run_iff anything (test ps) (Spells ps) (test-Spells ps) s
test-Spells (repeated x ∷ ps) s = run_iff (repeated x) (test ps) (Spells ps) (test-Spells ps) s
