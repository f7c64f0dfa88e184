-- ===== src/Protocol/Dict.antt =====
-- `Map<string, …>` of tools/protocol/src: its entries in the order in which their keys were first set.
use Prim.Native.String.{String}
use motis.Prelude.{
  ◌≡◌, refl, Bool, true, false, ◌||◌, List, [], ◌∷◌, Option, none, some, str_eq, str_eq_iff, arith,
  Bool-cases, inl, inr, if◌then◌else◌,
}
use mathlib.Core.Option

module _ {ℓ} {V : Type ℓ} where
  -- `map.get(k)`
  abbrev pub get : String → List (String × V) → Option V
  get k [] = none
  get k ((j, v) ∷ m) = if str_eq j k then some v else get k m

  -- `map.has(k)`
  abbrev pub has : String → List (String × V) → Bool
  has k [] = false
  has k ((j, v) ∷ m) = str_eq j k || has k m

  -- `map.set(k, v)`
  abbrev pub put : String → V → List (String × V) → List (String × V)
  put k v [] = (k, v) ∷ []
  put k v ((j, w) ∷ m) = if str_eq j k then (k, v) ∷ m else (j, w) ∷ put k v m

  -- A change of the object that `map.get(k)` returns.
  abbrev pub change : String → (V → V) → List (String × V) → List (String × V)
  change k f [] = []
  change k f ((j, v) ∷ m) = if str_eq j k then (j, f v) ∷ m else (j, v) ∷ change k f m

module _ {ℓ} {V : Type ℓ} where
  pub get-put :
      (k j : String) (v : V) (m : List (String × V))
      → get j (put k v m) ≡ (if str_eq k j then some v else get j m)
  get-put k j v [] = refl
  get-put k j v ((i, w) ∷ m) =
      ground (arith, str_eq_iff k j, str_eq_iff i k, str_eq_iff i j, get-put k j v m)

  pub has-put :
      (k j : String) (v : V) (m : List (String × V)) → has j (put k v m) ≡ (str_eq k j || has j m)
  has-put k j v [] = refl
  has-put k j v ((i, w) ∷ m) =
      ground (arith, str_eq_iff k j, str_eq_iff i k, str_eq_iff i j, has-put k j v m)

  pub has-change :
      (k j : String) (f : V → V) (m : List (String × V)) → has j (change k f m) ≡ has j m
  has-change k j f [] = refl
  has-change k j f ((i, w) ∷ m) = ground (arith, has-change k j f m)

  pub get-change :
      (k j : String) (f : V → V) (m : List (String × V))
      → get j (change k f m) ≡ (if str_eq k j then Option.map f (get j m) else get j m)
  get-change k j f [] = ground arith
  get-change k j f ((i, w) ∷ m) =
      ground (arith, str_eq_iff k j, str_eq_iff i k, str_eq_iff i j, get-change k j f m)

  pub has-get : (k : String) (m : List (String × V)) → has k m ≡ true → (v : V) × (get k m ≡ some v)
  has-get k [] h = absurd (no h)
    where
      no : false ≡ true → ⊥
      no e = cc
  has-get k ((j, v) ∷ m) h = elim (Bool-cases (str_eq j k)) [
    | inl e ↦ (v, rw e refl)
    | inr e ↦ let (w, p) = has-get k m (rw e at h) in (w, rw e p)
  ]

  pub has_of_get : (k : String) (m : List (String × V)) {v : V} → get k m ≡ some v → has k m ≡ true
  has_of_get k [] h = cc
  has_of_get k ((j, w) ∷ m) {v} h = ground (arith, has_of_get k m {v = v})
