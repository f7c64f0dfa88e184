-- ===== src/Protocol/TypeScript/Written.antt =====
-- Which file of tools/protocol/src/output/typescript/output.ts a type is written to.
use Prim.Native.String.{String}
use motis.Prelude.{
  if◌then◌else◌, ◌≡◌, not, ◌&&◌, refl, Bool, true, false, List, [], ◌∷◌, Option, none, some, all,
  str_eq, str_eq_iff, arith, Bool-cases, inl, inr, subst, sym,
}
use mathlib.Core.Option
use motis.Protocol.Names.{join_dots, drop_last, last_part}
use motis.Protocol.Dict.{get, has, get-put, get-change}
use motis.Protocol.Types.{TypeRef, TypeBase, SchemaType}
use motis.Protocol.Results.{Ends}
use motis.Protocol.Resolver.{contains}
use motis.Protocol.Resolver.Including.{contains-snoc}
use motis.Protocol.References.{Types, key_of}
use motis.Protocol.TypeScript.{
  TsIncludes, TsContext, TsFile, base, push_type, add_to_file, add_type, add_types, collect_types,
  collect_includes,
}
use motis.Protocol.TypeScript.Imports.{is_imported, refs_of_types, has_names}
use motis.Protocol.TypeScript.Grouped.{collect_types-imports, add_types-schema}
use motis.Protocol.TypeScript.Named.{collect_types-collects, collect_types-names, add_type-includes}
use motis.Protocol.Resolver.Reading.{Ends-map}

abbrev pub lists : String → Option TsFile → Bool
lists key none = false
lists key (some file) = contains key file.types

abbrev pub namespace_key : SchemaType → String
namespace_key t = join_dots (base t).ns

lists-push :
    (key new : String) (file : Option TsFile)
    → lists key file ≡ true
    → lists key (Option.map (push_type new) file) ≡ true
lists-push key new none h = h
lists-push key new (some file) h = rw (contains-snoc key new file.types, h) refl

str_eq_refl : (s : String) → str_eq s s ≡ true
str_eq_refl s = (str_eq_iff s s).1 refl

lists-pushed : (new : String) (file : TsFile) → lists new (some (push_type new file)) ≡ true
lists-pushed new file = ground (arith, contains-snoc new new file.types, str_eq_iff new new)

-- What a file lists it keeps.
add_to_file-keeps :
    (ctx : TsContext) (key new ns : String) (b : TypeBase) (old : Option TsFile)
    → get (join_dots b.ns) ctx.files ≡ old
    → lists key (get ns ctx.files) ≡ true
    → lists key (get ns (add_to_file ctx new b old)) ≡ true
add_to_file-keeps ctx key new ns b none e h = elim (Bool-cases (str_eq (join_dots b.ns) ns)) [
  | inl same ↦
      let none_there : get ns ctx.files ≡ none =
        subst (λ x. get x ctx.files ≡ none) ((str_eq_iff (join_dots b.ns) ns).0 same) e in
      let no : false ≡ true = rw none_there at h in cc
  | inr other ↦ rw (get-put (join_dots b.ns) ns _ ctx.files, other) h
]
add_to_file-keeps ctx key new ns b (some file) e h =
    elim (Bool-cases (str_eq (join_dots b.ns) ns)) [
      | inl same ↦
          rw (get-change (join_dots b.ns) ns (push_type new) ctx.files, same)
            (lists-push key new (get ns ctx.files) h)
      | inr other ↦ rw (get-change (join_dots b.ns) ns (push_type new) ctx.files, other) h
    ]

add_to_file-lists :
    (ctx : TsContext) (new : String) (b : TypeBase) (old : Option TsFile)
    → get (join_dots b.ns) ctx.files ≡ old
    → lists new (get (join_dots b.ns) (add_to_file ctx new b old)) ≡ true
add_to_file-lists ctx new b none e =
    rw (get-put (join_dots b.ns) (join_dots b.ns) _ ctx.files, str_eq_refl (join_dots b.ns))
      (ground (arith, str_eq_iff new new))
add_to_file-lists ctx new b (some file) e =
    rw
      (
        get-change (join_dots b.ns) (join_dots b.ns) (push_type new) ctx.files,
        str_eq_refl (join_dots b.ns),
        e,
      )
      (lists-pushed new file)

add_type-keeps :
    (ctx : TsContext) (key new ns : String) (t : SchemaType)
    → lists key (get ns ctx.files) ≡ true
    → lists key (get ns (add_type new t ctx).files) ≡ true
unfolding add_type
add_type-keeps ctx key new ns t h = elim (Bool-cases (ctx.includes new)) [
  | inl e ↦ rw e (add_to_file-keeps ctx key new ns (base t) _ refl h)
  | inr e ↦ rw e h
]

add_type-lists :
    (ctx : TsContext) (new : String) (t : SchemaType)
    → ctx.includes new ≡ true
    → lists new (get (namespace_key t) (add_type new t ctx).files) ≡ true
unfolding add_type
add_type-lists ctx new t e = rw e (add_to_file-lists ctx new (base t) _ refl)

add_types-keeps :
    (types : Types) (ctx : TsContext) (key ns : String)
    → lists key (get ns ctx.files) ≡ true
    → lists key (get ns (add_types types ctx).files) ≡ true
unfolding add_types
add_types-keeps [] ctx key ns h = h
add_types-keeps ((new, t) ∷ types) ctx key ns h =
    add_types-keeps types (add_type new t ctx) key ns (add_type-keeps ctx key new ns t h)

add_types-lists :
    (types : Types) (ctx : TsContext) (key : String) {t : SchemaType}
    → get key types ≡ some t
    → ctx.includes key ≡ true
    → lists key (get (namespace_key t) (add_types types ctx).files) ≡ true
unfolding add_types
add_types-lists [] ctx key h i = cc
add_types-lists ((new, u) ∷ types) ctx key {t} h i = elim (Bool-cases (str_eq new key)) [
  | inl same ↦
      let new_is : new ≡ key = (str_eq_iff new key).0 same in
      let u_is : u ≡ t = some_head (rw same at h) in
      add_types-keeps types (add_type new u ctx) key (namespace_key t) (
        subst (λ x. lists x (get (namespace_key t) (add_type new u ctx).files) ≡ true) new_is
          (subst (λ x. lists new (get (namespace_key x) (add_type new u ctx).files) ≡ true) u_is
            (add_type-lists ctx new u (subst (λ x. ctx.includes x ≡ true) (sym new_is) i))))
  | inr other ↦
      add_types-lists types (add_type new u ctx) key (rw other at h)
        (subst (λ f. f key ≡ true) (sym (add_type-includes ctx new u)) i)
]
  where
    some_head : {a b : SchemaType} → some a ≡ some b → a ≡ b
    some_head h = cc

lists-some :
    (key : String) (file : Option TsFile)
    → lists key file ≡ true
    → (f : TsFile) × (file ≡ some f) × (contains key f.types ≡ true)
lists-some key none h = cc
lists-some key (some file) h = (file, refl, h)

collected-lists :
    (schema : Types) (includes : String → Bool) (filename : List String → String) (key : String)
    {t : SchemaType}
    → get key schema ≡ some t
    → includes key ≡ true
    → lists key (get (namespace_key t) (collect_types schema includes filename).files) ≡ true
unfolding collect_types
collected-lists schema includes filename key h i = add_types-lists schema _ key h i

-- In the file of a namespace, a type of another namespace that the filter lets through is imported.
abbrev pub is_imported_in : Types → (String → Bool) → String → TsIncludes → TypeRef → Bool
is_imported_in schema includes ns m ref =
    if includes (key_of ref)
      && has (key_of ref) schema
      && not (str_eq (join_dots (drop_last ref.resolved_fqtn)) ns)
    then has_names (last_part ref.resolved_fqtn) (get (key_of ref) schema)
        (get (join_dots (drop_last ref.resolved_fqtn)) m)
    else true

all_mono :
    (p q : TypeRef → Bool) (refs : List TypeRef)
    → ((ref : TypeRef) → p ref ≡ true → q ref ≡ true)
    → all p refs ≡ true
    → all q refs ≡ true
all_mono p q [] up h = refl
all_mono p q (ref ∷ refs) up h = ground (arith, up ref, all_mono p q refs up)

module _ (schema : Types) (includes : String → Bool) (filename : List String → String) (ns : String)
    {file : TsFile} (at : get ns (collect_types schema includes filename).files ≡ some file) where
  abbrev ctx : TsContext
  ctx = collect_types schema includes filename

  same_schema : ctx.schema ≡ schema
  unfolding collect_types
  same_schema = add_types-schema schema _

  imported-in :
      (m : TsIncludes) (ref : TypeRef)
      → is_imported ctx file m ref ≡ true
      → is_imported_in ctx.schema includes ns m ref ≡ true
  imported-in m ref h =
      subst (λ n. is_imported_in ctx.schema includes n m ref ≡ true)
        (collect_types-names schema includes filename ns at) (ground (arith, h, collected))
    where
      collected :
          has (key_of ref) ctx.schema ≡ true
          → includes (key_of ref) ≡ true
          → contains (key_of ref) ctx.types ≡ true
      collected there =
          collect_types-collects schema includes filename (key_of ref)
            (subst (λ s. has (key_of ref) s ≡ true) same_schema there)

  file-imports :
      Ends
        (λ m. all (is_imported_in schema includes ns m) (refs_of_types schema file.types) ≡ true)
        (λ e. ⊥)
        (collect_includes ctx file)
  file-imports =
      Ends-map _ _ (λ e. ⊥) (collect_includes ctx file)
        (collect_types-imports schema includes filename ns at)
        λ m h.
          subst (λ s. all (is_imported_in s includes ns m) (refs_of_types s file.types) ≡ true)
            same_schema
            (all_mono (is_imported ctx file m) (is_imported_in ctx.schema includes ns m)
              (refs_of_types ctx.schema file.types) (imported-in m) h)

-- Each type of the schema that the filter lets through is in the file of its namespace. For this file
-- the imports are collected without an error; and each reference of its types to a type of another
-- namespace that the filter lets through is imported from there, a union with the type of its tags.
pub collect_types-written :
    (schema : Types) (includes : String → Bool) (filename : List String → String) (key : String)
    {t : SchemaType}
    → get key schema ≡ some t
    → includes key ≡ true
    → let ctx = collect_types schema includes filename in
      (file : TsFile) × (get (namespace_key t) ctx.files ≡ some file)
      × (contains key file.types ≡ true)
      × Ends
          (λ m.
            all
              (is_imported_in schema includes (namespace_key t) m)
              (refs_of_types schema file.types)
            ≡ true)
          (λ e. ⊥)
          (collect_includes ctx file)
collect_types-written schema includes filename key {t} h i =
    let (file, at, there) =
      lists-some key (get (namespace_key t) (collect_types schema includes filename).files)
        (collected-lists schema includes filename key h i) in
    (file, at, there, file-imports schema includes filename (namespace_key t) at)
