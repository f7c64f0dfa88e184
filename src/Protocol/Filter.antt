-- ===== src/Protocol/Filter.antt =====
-- tools/protocol/src/filter: which types an output includes. Texts are lists of character codes, and
-- the regular expressions are the ones that `parseTypePattern` can build.
pub mod Spelling
pub mod Parts
use Prim.Native.String.{String}
use mathlib.Core.Option
use motis.Prelude.{
  ℕ, Bool, true, false, not, ◌&&◌, ◌||◌, List, [], ◌∷◌, ◌++◌, Option, none, some, ◌==◌, leb,
  if◌then◌else◌, all, any, codes,
}

-- A piece of a regular expression: a character, `[^.]*`, `.*`, or a character with a `*` after it.
pub data Piece : Type 0 where
  char : ℕ → Piece
  within_part : Piece
  anything : Piece
  repeated : ℕ → Piece

-- What `.` does not match.
abbrev pub is_line_end : ℕ → Bool
is_line_end c = c == 10 || c == 13 || c == 0x2028 || c == 0x2029

-- The characters that a piece with a star runs over.
abbrev pub runs_over : Piece → ℕ → Bool
runs_over (char x) c = false
runs_over within_part c = not (c == b'.')
runs_over anything c = not (is_line_end c)
runs_over (repeated x) c = c == x

-- A piece with a star takes no further character, or one more.
unfoldable pub run : Piece → (List ℕ → Bool) → List ℕ → Bool
run p rest [] = rest []
run p rest (c ∷ s) =
    let longer = run p rest s in if runs_over p c then rest (c ∷ s) || longer else rest (c ∷ s)

-- What `test` of the language's regular expressions answers for `^…$`, of which `Piece` lists the forms
-- that a type filter can have.
unfoldable pub test : List Piece → List ℕ → Bool
unfolding run
test [] [] = true
test [] (c ∷ s) = false
test (char x ∷ ps) [] = false
test (char x ∷ ps) (c ∷ s) = c == x && test ps s
test (within_part ∷ ps) s = run within_part (test ps) s
test (anything ∷ ps) s = run anything (test ps) s
test (repeated x ∷ ps) s = run (repeated x) (test ps) s

-- `allowedPartCharacters.test(part)`
abbrev pub is_allowed : ℕ → Bool
is_allowed c =
    c == b'-'
    || c == b'_'
    || c == b'*'
    || leb b'a' c && leb c b'z'
    || leb b'A' c && leb c b'Z'
    || leb b'0' c && leb c b'9'

abbrev pub is_valid_part : List ℕ → Bool
is_valid_part [] = false
is_valid_part (c ∷ cs) = all is_allowed (c ∷ cs)

abbrev pub skip_stars : List ℕ → List ℕ
skip_stars [] = []
skip_stars (c ∷ cs) = if c == b'*' then skip_stars cs else c ∷ cs

abbrev pub starts_with_star : List ℕ → Bool
starts_with_star [] = false
starts_with_star (c ∷ cs) = c == b'*'

-- What `part.replace(/\*+/, …)` leaves alone, as the regular expression reads it: a star repeats the
-- character before it, and two stars are a syntax error.
unfoldable pub remainder : List ℕ → Option (List Piece)
remainder [] = some []
remainder (c ∷ []) = if c == b'*' then none else some (char c ∷ [])
remainder (c ∷ d ∷ cs) =
    if c == b'*'
    then none
    else if d == b'*'
    then Option.map (λ ps. repeated c ∷ ps) (remainder cs)
    else Option.map (λ ps. char c ∷ ps) (remainder (d ∷ cs))

-- A part, with its first run of stars replaced.
unfoldable pub parse_part : List ℕ → Option (List Piece)
unfolding remainder
parse_part [] = some []
parse_part (c ∷ cs) =
    if not (c == b'*')
    then Option.map (λ ps. char c ∷ ps) (parse_part cs)
    else if starts_with_star cs
    then Option.map (λ ps. anything ∷ ps) (remainder (skip_stars cs))
    else Option.map (λ ps. within_part ∷ ps) (remainder cs)

-- `pattern.split(".")`
unfoldable pub split_parts : List ℕ → List (List ℕ)
split_parts [] = [] ∷ []
split_parts (c ∷ cs) = elim (split_parts cs) [
  | [] ↦ []
  | p ∷ ps ↦ if c == b'.' then [] ∷ p ∷ ps else (c ∷ p) ∷ ps
]

abbrev pub join_part : Option (List Piece) → Option (List Piece) → Option (List Piece)
join_part none rest = none
join_part (some first) rest = Option.map (λ ps. first ++ char b'.' ∷ ps) rest

-- The parts, joined by `\.`; `none` is an error.
unfoldable pub parse_parts : List (List ℕ) → Option (List Piece)
unfolding parse_part
parse_parts [] = some []
parse_parts (p ∷ []) = if is_valid_part p then parse_part p else none
parse_parts (p ∷ q ∷ ps) =
    if is_valid_part p then join_part (parse_part p) (parse_parts (q ∷ ps)) else none

unfoldable pub parse_type_pattern : List ℕ → Option (List Piece)
unfolding split_parts parse_parts
parse_type_pattern pattern = parse_parts (split_parts pattern)

-- The entries of the list that are texts, as in the configuration.
unfoldable pub parse_type_patterns : List String → Option (List (List Piece))
unfolding parse_type_pattern
parse_type_patterns [] = some []
parse_type_patterns (s ∷ ss) =
    Option.bind (parse_type_pattern (codes s))
      λ p. Option.map (λ ps. p ∷ ps) (parse_type_patterns ss)

pub record TypeFilter : Type 0 where
  pub includes : List (List Piece)
  pub excludes : List (List Piece)

-- `parseTypeFilter`, where the configuration has the two lists, empty where they are missing.
unfoldable pub parse_type_filter : List String → List String → Option TypeFilter
parse_type_filter include exclude = Option.bind (parse_type_patterns include) λ includes.
    Option.map (λ excludes. record { includes = includes; excludes = excludes })
      (parse_type_patterns exclude)

abbrev pub type_matches : List (List Piece) → String → Bool
type_matches patterns fqtn = any (λ p. test p (codes fqtn)) patterns

abbrev pub is_empty {ℓ} : {A : Type ℓ} → List A → Bool
is_empty [] = true
is_empty (x ∷ xs) = false

unfoldable pub include_type : TypeFilter → String → Bool
include_type filter fqtn =
    if not (is_empty filter.includes) && not (type_matches filter.includes fqtn)
    then false
    else not (type_matches filter.excludes fqtn)
