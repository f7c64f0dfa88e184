-- ===== src/Protocol/Filter/Parts.antt =====
-- A single star in a pattern of tools/protocol/src/filter stays within one part of a name.
use mathlib.Core.Option
use motis.Prelude.{
  ℕ, suc, ◌+◌, ◌≡◌, ◌≢◌, refl, ap, ◌∙◌, Bool, true, false, not, ◌&&◌, ◌||◌, List, [], ◌∷◌, ◌++◌,
  Option, none, some, arith, all, length, ◌==◌, if◌then◌else◌, Bool-cases, inl, inr, Holds,
  Holds-some,
}
use motis.Protocol.Filter.{
  Piece, char, within_part, anything, repeated, runs_over, test, is_allowed, is_valid_part,
  starts_with_star, remainder, parse_part, split_parts, join_part, parse_parts, parse_type_pattern,
}
use motis.Protocol.Filter.Spelling.{Spells, test-Spells}

abbrev dots : List ℕ → ℕ
dots [] = 0
dots (c ∷ s) = if c == b'.' then dots s + 1 else dots s

dots-append : (u r : List ℕ) → dots (u ++ r) ≡ dots u + dots r
dots-append [] r = omega arith
dots-append (c ∷ u) r = ground (arith, dots-append u r)

-- The dots that a list of pieces spells, unless one of them runs over dots.
abbrev piece_dots : List Piece → ℕ
piece_dots [] = 0
piece_dots (char c ∷ ps) = if c == b'.' then piece_dots ps + 1 else piece_dots ps
piece_dots (p ∷ ps) = piece_dots ps

abbrev is_plain : Piece → Bool
is_plain (char c) = true
is_plain within_part = true
is_plain anything = false
is_plain (repeated c) = not (c == b'.')

no_dots : (p : Piece) (u : List ℕ) → is_plain p ≡ true → all (runs_over p) u ≡ true → dots u ≡ 0
no_dots p [] h k = refl
no_dots (char x) (c ∷ u) h k = cc
no_dots within_part (c ∷ u) h k = ground (arith, no_dots within_part u h)
no_dots anything (c ∷ u) h k = cc
no_dots (repeated x) (c ∷ u) h k = ground (arith, no_dots (repeated x) u h)

left : (a b : Bool) → (a && b) ≡ true → a ≡ true
left a b h = ground arith

right : (a b : Bool) → (a && b) ≡ true → b ≡ true
right a b h = ground arith

both : (a b : Bool) → a ≡ true → b ≡ true → (a && b) ≡ true
both a b h k = ground arith

run_dots :
    (p : Piece) {s : List ℕ} (u r : List ℕ) (n : ℕ)
    → is_plain p ≡ true
    → s ≡ u ++ r
    → all (runs_over p) u ≡ true
    → dots r ≡ n
    → dots s ≡ n
run_dots p {s} u r n h e over k = ap dots e ∙ omega (arith, dots-append u r, no_dots p u h over, k)

Spells-dots :
    (ps : List Piece) (s : List ℕ) → all is_plain ps ≡ true → Spells ps s → dots s ≡ piece_dots ps
Spells-dots [] s h k = ap dots k
Spells-dots (char x ∷ ps) s h (r, e, k) = ap dots e ∙ ground (arith, Spells-dots ps r h k)
Spells-dots (within_part ∷ ps) s h (u, r, e, over, k) =
    run_dots within_part u r (piece_dots ps) refl e over (Spells-dots ps r h k)
Spells-dots (anything ∷ ps) s h k = cc
Spells-dots (repeated x ∷ ps) s h (u, r, e, over, k) =
    run_dots (repeated x) u r (piece_dots ps) (left _ _ h) e over (Spells-dots ps r (right _ _ h) k)

-- Pieces of one part: none runs over dots or is one.
abbrev IsPart : List Piece → Type 0
IsPart ps = (all is_plain ps ≡ true) × (piece_dots ps ≡ 0)

allowed_ne_dot : (c : ℕ) → is_allowed c ≡ true → (c == b'.') ≡ false
allowed_ne_dot c h = ground arith

char-IsPart : (c : ℕ) (ps : List Piece) → is_allowed c ≡ true → IsPart ps → IsPart (char c ∷ ps)
char-IsPart c ps h (p, d) = rw (allowed_ne_dot c h) (p, d)

repeated-IsPart :
    (c : ℕ) (ps : List Piece) → is_allowed c ≡ true → IsPart ps → IsPart (repeated c ∷ ps)
repeated-IsPart c ps h (p, d) = rw (allowed_ne_dot c h) (p, d)

map_Holds :
    (f : List Piece → List Piece) (o : Option (List Piece))
    → ((ps : List Piece) → IsPart ps → IsPart (f ps))
    → Holds IsPart o
    → Holds IsPart (Option.map f o)
map_Holds f none h k = tt
map_Holds f (some ps) h k = h ps k

remainder-IsPart : (cs : List ℕ) → all is_allowed cs ≡ true → Holds IsPart (remainder cs)
unfolding remainder
remainder-IsPart [] h = (refl, refl)
remainder-IsPart (c ∷ []) h = elim (Bool-cases (c == b'*')) [
  | inl e ↦ rw e tt
  | inr e ↦ rw e (char-IsPart c [] (left _ _ h) (refl, refl))
]
remainder-IsPart (c ∷ d ∷ cs) h =
    let later = remainder-IsPart (d ∷ cs) (right _ _ h) in
    let after = remainder-IsPart cs (right _ _ (right _ _ h)) in
    elim (Bool-cases (c == b'*')) [
      | inl e ↦ rw e tt
      | inr e ↦ elim (Bool-cases (d == b'*')) [
        | inl f ↦
            rw (e, f)
              (map_Holds (λ ps. repeated c ∷ ps) (remainder cs)
                (λ ps. repeated-IsPart c ps (left _ _ h)) after)
        | inr f ↦
            rw (e, f)
              (map_Holds (λ ps. char c ∷ ps) (remainder (d ∷ cs))
                (λ ps. char-IsPart c ps (left _ _ h)) later)
      ]
    ]

-- Whether two stars stand together.
abbrev pub has_double_star : List ℕ → Bool
has_double_star [] = false
has_double_star (c ∷ cs) = c == b'*' && starts_with_star cs || has_double_star cs

parse_part-IsPart :
    (cs : List ℕ)
    → all is_allowed cs ≡ true
    → has_double_star cs ≡ false
    → Holds IsPart (parse_part cs)
unfolding parse_part
parse_part-IsPart [] h k = (refl, refl)
parse_part-IsPart (c ∷ cs) h k = elim (Bool-cases (c == b'*')) [
  | inl e ↦
      let single : starts_with_star cs ≡ false = ground arith in
      rw (e, single)
        (map_Holds (λ ps. within_part ∷ ps) (remainder cs) (λ ps p. p)
          (remainder-IsPart cs (right _ _ h)))
  | inr e ↦ rw e (
      map_Holds (λ ps. char c ∷ ps) (parse_part cs) (λ ps. char-IsPart c ps (left _ _ h))
        (parse_part-IsPart cs (right _ _ h) (ground arith)))
]

abbrev IsParts : ℕ → List Piece → Type 0
IsParts n ps = (all is_plain ps ≡ true) × (piece_dots ps + 1 ≡ n)

append-IsParts :
    (ps qs : List Piece) (n : ℕ) → IsPart ps → IsParts n qs → IsParts (suc n) (ps ++ char b'.' ∷ qs)
append-IsParts [] qs n h (p, d) = (p, omega (arith, d))
append-IsParts (char c ∷ ps) qs n (p, d) h = elim (Bool-cases (c == b'.')) [
  | inl e ↦ absurd (omega (arith, rw e at d))
  | inr e ↦ rw e (append-IsParts ps qs n (p, rw e at d) h)
]
append-IsParts (within_part ∷ ps) qs n (p, d) h = append-IsParts ps qs n (p, d) h
append-IsParts (anything ∷ ps) qs n (p, d) h = cc
append-IsParts (repeated c ∷ ps) qs n (p, d) h =
    let (q, e) = append-IsParts ps qs n (right _ _ p, d) h in (both _ _ (left _ _ p) q, e)

valid_allowed : (p : List ℕ) → is_valid_part p ≡ true → all is_allowed p ≡ true
valid_allowed [] h = refl
valid_allowed (c ∷ cs) h = h

join_part-IsParts :
    (o r : Option (List Piece)) (n : ℕ)
    → Holds IsPart o
    → Holds (IsParts n) r
    → Holds (IsParts (suc n)) (join_part o r)
join_part-IsParts none r n h k = tt
join_part-IsParts (some ps) none n h k = tt
join_part-IsParts (some ps) (some qs) n h k = append-IsParts ps qs n h k

-- The number of parts, of a pattern or a name.
abbrev pub parts : List ℕ → ℕ
parts s = length (split_parts s)

parse_parts-IsParts :
    (ps : List (List ℕ))
    → all (λ p. not (has_double_star p)) ps ≡ true
    → ps ≢ []
    → Holds (IsParts (length ps)) (parse_parts ps)
unfolding parse_parts
parse_parts-IsParts [] h ne = absurd (ne refl)
parse_parts-IsParts (p ∷ []) h ne = elim (Bool-cases (is_valid_part p)) [
  | inl e ↦ rw e (one_part (parse_part p) (parse_part-IsPart p (valid_allowed p e) (ground arith)))
  | inr e ↦ rw e tt
]
  where
    one_part : (o : Option (List Piece)) → Holds IsPart o → Holds (IsParts 1) o
    one_part none k = tt
    one_part (some qs) (q, d) = (q, omega (arith, d))
parse_parts-IsParts (p ∷ q ∷ ps) h ne = elim (Bool-cases (is_valid_part p)) [
  | inl e ↦ rw e (
      join_part-IsParts (parse_part p) (parse_parts (q ∷ ps)) (length (q ∷ ps))
        (parse_part-IsPart p (valid_allowed p e) (ground arith))
        (parse_parts-IsParts (q ∷ ps) (right _ _ h) (λ x. cc x)))
  | inr e ↦ rw e tt
]

split_parts-dots :
    (s : List ℕ)
    → (p : List ℕ) × (ps : List (List ℕ)) × (split_parts s ≡ p ∷ ps) × (length ps ≡ dots s)
unfolding split_parts
split_parts-dots [] = ([], [], refl, refl)
split_parts-dots (c ∷ cs) =
    let (p, ps, e, n) = split_parts-dots cs in
    elim (Bool-cases (c == b'.')) [
      | inl dot ↦ ([], p ∷ ps, rw (e, dot, split_parts) refl, rw dot (omega (arith, n)))
      | inr other ↦ (c ∷ p, ps, rw (e, other, split_parts) refl, rw other n)
    ]

parts-dots : (s : List ℕ) → parts s ≡ dots s + 1
parts-dots s = let (p, ps, e, n) = split_parts-dots s in ap length e ∙ omega (arith, n)

-- If no part of a pattern has two stars together, then each name that the pattern matches has as many
-- parts as the pattern: a single star does not run over a dot.
pub parse_type_pattern-parts :
    (pattern name : List ℕ) {ps : List Piece}
    → all (λ p. not (has_double_star p)) (split_parts pattern) ≡ true
    → parse_type_pattern pattern ≡ some ps
    → test ps name ≡ true
    → parts name ≡ parts pattern
unfolding parse_type_pattern
parse_type_pattern-parts pattern name {ps} single parsed matched =
    let (p, rest, e, n) = split_parts-dots pattern in
    let (plain, count) =
      Holds-some (IsParts (parts pattern)) (parse_parts (split_parts pattern))
        (parse_parts-IsParts (split_parts pattern) single (λ none_there. cc (e, none_there)))
        parsed in
    omega
      (arith, parts-dots name, Spells-dots ps name plain ((test-Spells ps name).0 matched), count)
