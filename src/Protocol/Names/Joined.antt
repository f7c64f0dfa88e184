-- ===== src/Protocol/Names/Joined.antt =====
-- `split(".")` and `join(".")` undo each other on the names of tools/protocol/src.
use Prim.Native.Char.{Char}
use Prim.Native.String.{String, ◌++◌ as append}
use text.Mathlib.TextLemmas.{nil-append, cons-append}
use text.Mathlib.TextEquality.{Char-path}
use motis.Prelude.{
  ◌≡◌, refl, ap, sym, ◌∙◌, true, false, List, [], ◌∷◌, ◌++◌, All, arith, Bool-cases, inl, inr, any,
  codes, ◌==◌,
}
use motis.Protocol.Names.{is_dot, prepend, split_dots, join_dots}

-- A part of a name holds no dot.
abbrev pub IsPart : String → Type 0
IsPart p = any (λ c. c == b'.') (codes p) ≡ false

pub data IsName : List String → Type 0 where
  one : {p : String} → IsPart p → IsName (p ∷ [])
  more : {p q : String} {ps : List String} → IsPart p → IsName (q ∷ ps) → IsName (p ∷ q ∷ ps)

prepend-IsName :
    (c : Char) (ps : List String) → is_dot c ≡ false → IsName ps → IsName (prepend c ps)
prepend-IsName c [] h n = elim n [ ]
prepend-IsName c (p ∷ []) h (one k) = one (rw h k)
prepend-IsName c (p ∷ q ∷ ps) h (more k n) = more (rw h k) n

cons-IsName : {p : String} (ps : List String) → IsPart p → IsName ps → IsName (p ∷ ps)
cons-IsName [] h n = elim n [ ]
cons-IsName (q ∷ ps) h n = more h n

pub split_dots-IsName : (s : String) → IsName (split_dots s)
unfolding split_dots
split_dots-IsName String.[] = one refl
split_dots-IsName (String.◌∷◌ c s) = elim (Bool-cases (is_dot c)) [
  | inl dot ↦ rw dot (cons-IsName (split_dots s) refl (split_dots-IsName s))
  | inr other ↦ rw other (prepend-IsName c (split_dots s) other (split_dots-IsName s))
]

pub append-IsName : (ps qs : List String) → All IsPart ps → IsName qs → IsName (ps ++ qs)
append-IsName [] qs a n = n
append-IsName (p ∷ ps) qs a n = cons-IsName (ps ++ qs) a.0 (append-IsName ps qs a.1 n)

join_dots-prepend :
    (c : Char) (ps : List String)
    → IsName ps
    → join_dots (prepend c ps) ≡ String.◌∷◌ c (join_dots ps)
unfolding join_dots
join_dots-prepend c [] n = elim n [ ]
join_dots-prepend c (p ∷ []) (one h) = refl
join_dots-prepend c (p ∷ q ∷ ps) (more h n) = cons-append c p _

join_dots-cons_empty :
    (ps : List String) → IsName ps → join_dots ("" ∷ ps) ≡ append "." (join_dots ps)
unfolding join_dots
join_dots-cons_empty [] n = elim n [ ]
join_dots-cons_empty (p ∷ []) n = nil-append _
join_dots-cons_empty (p ∷ q ∷ ps) n = nil-append _

dot_char : (c : Char) → is_dot c ≡ true → c ≡ "."
dot_char c h = Char-path c "." (ground arith)

dot-append : (s : String) → append "." s ≡ String.◌∷◌ "." s
dot-append s = cons-append "." "" s ∙ ap (λ t. String.◌∷◌ "." t) (nil-append s)

-- The parts of a text, joined, are the text.
pub join_dots-split_dots : (s : String) → join_dots (split_dots s) ≡ s
unfolding split_dots
join_dots-split_dots String.[] = one_part ""
  where
    one_part : (p : String) → join_dots (p ∷ []) ≡ p
    one_part p = unfold join_dots in refl
join_dots-split_dots (String.◌∷◌ c s) = elim (Bool-cases (is_dot c)) [
  | inl dot ↦ rw dot (
      join_dots-cons_empty (split_dots s) (split_dots-IsName s)
      ∙ dot-append (join_dots (split_dots s))
      ∙ ap (λ d. String.◌∷◌ d (join_dots (split_dots s))) (sym (dot_char c dot))
      ∙ ap (λ t. String.◌∷◌ c t) (join_dots-split_dots s))
  | inr other ↦ rw other (
      join_dots-prepend c (split_dots s) (split_dots-IsName s)
      ∙ ap (λ t. String.◌∷◌ c t) (join_dots-split_dots s))
]

split_dots-part : (p : String) → IsPart p → split_dots p ≡ p ∷ []
unfolding split_dots
split_dots-part String.[] h = refl
split_dots-part (String.◌∷◌ c s) h = elim (Bool-cases (is_dot c)) [
  | inl dot ↦ absurd (true≢false (rw dot at h))
  | inr other ↦ rw (other, split_dots-part s (rw other at h)) refl
]
  where
    true≢false : true ≡ false → ⊥
    true≢false e = cc

split_dots-dot : (p s : String) → IsPart p → split_dots (append p (append "." s)) ≡ p ∷ split_dots s
unfolding split_dots
split_dots-dot String.[] s h = rw (nil-append (append "." s), dot-append s) refl
split_dots-dot (String.◌∷◌ c p) s h = elim (Bool-cases (is_dot c)) [
  | inl dot ↦ absurd (true≢false (rw dot at h))
  | inr other ↦ rw (cons-append c p (append "." s), other, split_dots-dot p s (rw other at h)) refl
]
  where
    true≢false : true ≡ false → ⊥
    true≢false e = cc

-- The parts of a name are found again after they have been joined.
pub split_dots-join_dots : (ps : List String) → IsName ps → split_dots (join_dots ps) ≡ ps
unfolding join_dots
split_dots-join_dots [] n = elim n [ ]
split_dots-join_dots (p ∷ []) (one h) = split_dots-part p h
split_dots-join_dots (p ∷ q ∷ ps) (more h n) =
    split_dots-dot p (join_dots (q ∷ ps)) h ∙ ap (λ xs. p ∷ xs) (split_dots-join_dots (q ∷ ps) n)
