-- ===== src/Protocol/Names.antt =====
-- Qualified names in tools/protocol/src: `split(".")`, `join(".")` and `slice(0, -1)`.
pub mod Joined
use Prim.Native.Char.{Char, code}
use Prim.Native.String.{String, ◌++◌ as append}
use motis.Prelude.{ℕ, Bool, true, false, List, [], ◌∷◌, ◌==◌, if◌then◌else◌}

abbrev pub is_dot : Char → Bool
is_dot c = code c == b'.'

abbrev pub prepend : Char → List String → List String
prepend c [] = (String.◌∷◌ c String.[]) ∷ []
prepend c (p ∷ ps) = String.◌∷◌ c p ∷ ps

-- `s.split(".")`
unfoldable pub split_dots : String → List String
split_dots String.[] = String.[] ∷ []
split_dots (String.◌∷◌ c s) =
    let rest = split_dots s in if is_dot c then String.[] ∷ rest else prepend c rest

-- `parts.join(".")`
unfoldable pub join_dots : List String → String
join_dots [] = ""
join_dots (p ∷ []) = p
join_dots (p ∷ q ∷ ps) = append p (append "." (join_dots (q ∷ ps)))

-- `parts.slice(0, -1)`
abbrev pub drop_last {ℓ} : {A : Type ℓ} → List A → List A
drop_last [] = []
drop_last (p ∷ []) = []
drop_last (p ∷ q ∷ ps) = p ∷ drop_last (q ∷ ps)

-- `parts[parts.length - 1]`, where there are any.
abbrev pub last_part : List String → String
last_part [] = ""
last_part (p ∷ []) = p
last_part (p ∷ q ∷ ps) = last_part (q ∷ ps)

-- `parts[parts.length - 1] += suffix`
abbrev pub extend_last : String → List String → List String
extend_last suffix [] = []
extend_last suffix (p ∷ []) = append p suffix ∷ []
extend_last suffix (p ∷ q ∷ ps) = p ∷ extend_last suffix (q ∷ ps)
