-- ===== src/Protocol/References/Complete.antt =====
-- `resolveTypes` of tools/protocol/src/schema/resolver.ts: after its loops every reference of the
-- schema is resolved.
use Prim.Native.String.{String}
use motis.Prelude.{
  ℕ, zero, suc, ◌+◌, ◌<◌, ◌≤◌, ◌≡◌, ◌≢◌, ◌⊎◌, refl, sym, ap, ◌∙◌, subst, Bool, true, false, List,
  [], ◌∷◌, Option, none, some, get_elem?, get_elem?-some, lt-length_of_get_elem?, length, arith,
  Option-cases, Bool-cases, inl, inr, all, ◌==◌, ==_iff, ◌&&◌,
}
use motis.ConnectionManager.Trips.{update_at}
use motis.Protocol.Types.{TypeRef}
use motis.Protocol.Results.{Result, ok, err, ◌>>=◌, Ends}
use motis.Protocol.Resolver.{ResolverContext}
use motis.Protocol.References.{
  Types, resolve_and_mark, resolve_entry, resolve_entries, with_root, resolve_root, resolve_types,
  use_in_table,
}
use motis.Protocol.References.Marks.{seen_in_table, reaches, Members, members, members_of, Keeps}
use motis.Protocol.References.Marking.{use_in_table-Marks}
use motis.Protocol.References.Resolving.{
  is_fresh, are_fresh, are_reached, IsUnknownIn, After, are_reached-keep, resolve_and_mark-reaches,
}
use motis.Protocol.References.Entries.{
  get_elem?-members_of, length-members_of, EntryDone, resolve_entry-Done,
}

get_elem?-update_at_ne :
    (i j : ℕ) (m : Members) (ms : List Members)
    → j ≢ i
    → get_elem? (update_at i (λ _. m) ms) j ≡ get_elem? ms j
get_elem?-update_at_ne i j m [] h = refl
get_elem?-update_at_ne zero zero m (n ∷ ms) h = absurd (h refl)
get_elem?-update_at_ne zero (suc j) m (n ∷ ms) h = refl
get_elem?-update_at_ne (suc i) zero m (n ∷ ms) h = refl
get_elem?-update_at_ne (suc i) (suc j) m (n ∷ ms) h =
    get_elem?-update_at_ne i j m ms (λ e. h (ap suc e))

get_elem?-update_at_self :
    (i : ℕ) (m : Members) (ms : List Members) {n : Members}
    → get_elem? (update_at i (λ _. m) ms) i ≡ some n
    → m ≡ n
get_elem?-update_at_self i m [] h = cc
get_elem?-update_at_self zero m (n ∷ ms) h = cc
get_elem?-update_at_self (suc i) m (n ∷ ms) h = get_elem?-update_at_self i m ms h

length-update_at :
    (i : ℕ) (m : Members) (ms : List Members) → length (update_at i (λ _. m) ms) ≡ length ms
length-update_at i m [] = refl
length-update_at zero m (n ∷ ms) = refl
length-update_at (suc i) m (n ∷ ms) = ap suc (length-update_at i m ms)

place : (j i : ℕ) → (j ≡ i) ⊎ (j ≢ i)
place j i = elim (Bool-cases (j == i)) [
  | inl e ↦ inl ((==_iff j i).0 e)
  | inr e ↦ inr (λ p. cc (e, (==_iff j i).1 p))
]

lt_of_ne : (j i : ℕ) → j < i + 1 → j ≢ i → j < i
lt_of_ne j i h ne = ground arith

-- The loop has reached place `i`: what lies before it is resolved, the rest is not.
abbrev Halfway : Types → ℕ → Type 0
Halfway types i =
    (j : ℕ) (m : Members)
    → get_elem? (members_of types) j ≡ some m
    → (j < i → are_reached types m ≡ true) × (i ≤ j → are_fresh m ≡ true)

Halfway-next :
    (types types' : Types) (i : ℕ)
    → EntryDone types types' i
    → Halfway types i
    → Halfway types' (i + 1)
Halfway-next types types' i d h j m at =
    let at' = ap (λ ms. get_elem? ms j) (sym d.changed) ∙ at in
    elim (place j i) [
      | inl here ↦
          let same : d.reached ≡ m = get_elem?-update_at_self i d.reached (members_of types) (
            subst (λ x. get_elem? (update_at i (λ _. d.reached) (members_of types)) x ≡ some m) here
              at') in
          (
            λ _. subst (λ n. are_reached types' n ≡ true) same d.are,
            λ above. absurd (omega (arith, here, above)),
          )
      | inr elsewhere ↦
          let before =
            h j m (sym (get_elem?-update_at_ne i j d.reached (members_of types) elsewhere) ∙ at') in
          (
            λ below. are_reached-keep m d.keeps (before.0 (lt_of_ne j i below elsewhere)),
            λ above. before.1 (omega arith),
          )
    ]

-- All references of the types are resolved.
abbrev pub AllReached : Types → Type 0
AllReached types = all (are_reached types) (members_of types) ≡ true

all_reached :
    (types : Types) (ms : List Members)
    → ((j : ℕ) (m : Members) → get_elem? ms j ≡ some m → are_reached types m ≡ true)
    → all (are_reached types) ms ≡ true
all_reached types [] h = refl
all_reached types (m ∷ ms) h = rw (h 0 m refl, all_reached types ms (λ j n at. h (suc j) n at)) refl

resolve_entries-AllReached :
    (file : String) (n i : ℕ) (types : Types)
    → i + n ≡ length (members_of types)
    → Halfway types i
    → Ends AllReached (IsUnknownIn file) (resolve_entries file i n types)
unfolding resolve_entries
resolve_entries-AllReached file zero i types len h =
    all_reached types (members_of types)
      λ j m at. (h j m at).0 (omega (arith, lt-length_of_get_elem? (members_of types) j at, len))
resolve_entries-AllReached file (suc n) i types len h = elim (Option-cases (get_elem? types i)) [
  | inl none_there ↦
      let (e, at) = get_elem?-some types i (omega (arith, len, length-members_of types)) in
      cc (none_there, at)
  | inr ((key, t), at) ↦
      let at' = get_elem?-members_of types i at in
      rw (at, resolve_entries)
        (then_rest (resolve_entry file i t types)
          (resolve_entry-Done file i t types at' ((h i (members t) at').1 (omega arith)))
          λ types' d.
            resolve_entries-AllReached file n (i + 1) types'
              (omega
                (arith, len, ap length d.changed, length-update_at i d.reached (members_of types)))
              (Halfway-next types types' i d h))
]
  where
    then_rest :
        (r : Result Types)
        → Ends (λ types'. EntryDone types types' i) (IsUnknownIn file) r
        → ((types' : Types)
            → EntryDone types types' i
            → Ends AllReached (IsUnknownIn file) (resolve_entries file (i + 1) n types'))
        → Ends AllReached (IsUnknownIn file) (r >>= resolve_entries file (i + 1) n)
    then_rest (ok types') d k = k types' d
    then_rest (err e) d k = d

abbrev pub fresh_root : Option TypeRef → Bool
fresh_root none = true
fresh_root (some ref) = is_fresh ref

abbrev pub reached_root : Types → Option TypeRef → Bool
reached_root types none = true
reached_root types (some ref) = reaches seen_in_table types ref

-- The references of the types, and the one to the root type, are not resolved yet.
pub record IsFresh (ctx : ResolverContext) : Type 0 where
  pub types : all are_fresh (members_of ctx.types) ≡ true
  pub root : fresh_root ctx.root_type ≡ true

-- Each reference names a type of the schema; a table that is used in a table or as the root says so,
-- and so does one that is used in a union.
pub record IsResolved (types : Types) (root_type : Option TypeRef) : Type 0 where
  pub members : AllReached types
  pub root : reached_root types root_type ≡ true

AllReached-keep :
    (types types' : Types)
    → Keeps types types'
    → members_of types' ≡ members_of types
    → AllReached types
    → AllReached types'
AllReached-keep types types' k m h =
    subst (λ ms. all (are_reached types') ms ≡ true) (sym m) (go (members_of types) h)
  where
    go :
        (ms : List Members) → all (are_reached types) ms ≡ true → all (are_reached types') ms ≡ true
    go [] a = refl
    go (n ∷ ms) a = elim (Bool-cases (are_reached types n)) [
      | inl e ↦ rw (are_reached-keep n k e) (go ms (rw e at a))
      | inr e ↦ let wrong : false ≡ true = rw e at a in cc
    ]

resolve_root-IsResolved :
    (ctx : ResolverContext) (root : Option TypeRef)
    → ctx.root_type ≡ root
    → fresh_root root ≡ true
    → AllReached ctx.types
    → Ends
        (λ c. IsResolved c.types c.root_type)
        (IsUnknownIn ctx.current_file)
        (resolve_root ctx root)
unfolding resolve_root
resolve_root-IsResolved ctx none e fresh h = record {
  members = h;
  root = subst (λ r. reached_root ctx.types r ≡ true) (sym e) refl;
}
resolve_root-IsResolved ctx (some ref) e fresh h =
    then_root (resolve_and_mark use_in_table ctx.current_file ctx.types ref)
      (resolve_and_mark-reaches ctx.current_file ctx.types ref use_in_table-Marks fresh)
  where
    then_root :
        (r : Result (TypeRef × Types))
        → After ctx.current_file ctx.types (λ q types'. reaches seen_in_table types' q ≡ true) r
        → Ends
            (λ c. IsResolved c.types c.root_type)
            (IsUnknownIn ctx.current_file)
            (r >>= with_root ctx)
    then_root (ok (q, types')) (k, m, p) = record {
      members = AllReached-keep ctx.types types' k m h;
      root = p;
    }
    then_root (err e) p = p

and_right : (a b : Bool) → (a && b) ≡ true → b ≡ true
and_right a b h = ground arith

all_fresh :
    (ms : List Members) (j : ℕ) {m : Members}
    → all are_fresh ms ≡ true
    → get_elem? ms j ≡ some m
    → are_fresh m ≡ true
all_fresh [] j h at = cc
all_fresh (n ∷ ms) zero {m} h at = ground arith
all_fresh (n ∷ ms) (suc j) {m} h at = all_fresh ms j (and_right (are_fresh n) _ h) at

-- If no reference is resolved yet, then `resolveTypes` resolves all or fails at a name that no
-- namespace around its use defines. In the end each reference names a type of the schema, and each
-- table that a field or the root type names is marked as used in a table, and each that a union names
-- as used in a union.
pub resolve_types-IsResolved :
    (ctx : ResolverContext)
    → IsFresh ctx
    → Ends (λ c. IsResolved c.types c.root_type) (IsUnknownIn ctx.current_file) (resolve_types ctx)
unfolding resolve_types
resolve_types-IsResolved ctx f =
    then_root (resolve_entries ctx.current_file 0 (length ctx.types) ctx.types) (
      resolve_entries-AllReached ctx.current_file (length ctx.types) 0 ctx.types
        (omega (arith, length-members_of ctx.types))
        λ j m at.
          (λ below. absurd (omega arith), λ _. all_fresh (members_of ctx.types) j f.types at))
  where
    then_root :
        (r : Result Types)
        → Ends AllReached (IsUnknownIn ctx.current_file) r
        → Ends
            (λ c. IsResolved c.types c.root_type)
            (IsUnknownIn ctx.current_file)
            (r >>= λ types. resolve_root (record ctx { types = types }) ctx.root_type)
    then_root (ok types) h =
        resolve_root-IsResolved (record ctx { types = types }) ctx.root_type refl f.root h
    then_root (err e) h = h
