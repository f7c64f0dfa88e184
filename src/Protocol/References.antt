-- ===== src/Protocol/References.antt =====
-- The second half of tools/protocol/src/schema/resolver.ts: `resolveTypes`, and `resolveSchemaTypes`,
-- which reads the files first.
pub mod Innermost
pub mod Marks
pub mod Marking
pub mod Resolving
pub mod Entries
pub mod Complete
pub mod Schema
pub mod Whole
use Prim.Native.String.{String}
use motis.Prelude.{
  ℕ, zero, suc, ◌+◌, Bool, true, false, List, [], ◌∷◌, ◌++◌, Option, none, some, if◌then◌else◌,
  length, take, get_elem?,
}
use motis.ConnectionManager.Trips.{update_at}
use motis.Protocol.Names.{split_dots, join_dots}
use motis.Protocol.Dict.{has, change}
use motis.Protocol.Types.{
  TypeRef, UnionValue, FieldType, basic, vector, custom, TableField, SchemaType, enum_type,
  union_type, table_type, SchemaTypes,
}
use motis.Protocol.Results.{Result, ok, err, ◌>>=◌, unknown_type}
use motis.Protocol.Resolver.{Files, ResolverContext, resolve_file}

abbrev pub Types : Type 0
Types = List (String × SchemaType)

-- The loop of `resolveType`, with the first `k` parts of the namespace as `prefix`.
unfoldable pub resolve_prefix : Types → String → List String → String → ℕ → Result (List String)
resolve_prefix types file ns input zero =
    if has (join_dots (split_dots input)) types
    then ok (split_dots input)
    else err (unknown_type input file)
resolve_prefix types file ns input (suc k) =
    let fqtn = take (suc k) ns ++ split_dots input in
    if has (join_dots fqtn) types then ok fqtn else resolve_prefix types file ns input k

unfoldable pub resolve_type : Types → String → TypeRef → Result TypeRef
resolve_type types file ref = elim ref.resolved_fqtn [
  | [] ↦
      resolve_prefix types file ref.current_namespace ref.input (length ref.current_namespace)
      >>= λ fqtn. ok (record ref { resolved_fqtn = fqtn })
  | p ∷ ps ↦ ok ref
]

-- The flags that `markResolvedType` sets, on tables only.
abbrev pub use_in_table : SchemaType → SchemaType
use_in_table (enum_type b vs) = enum_type b vs
use_in_table (union_type b vs) = union_type b vs
use_in_table (table_type t) = table_type (record t { used_in_table = true })

abbrev pub use_in_union : SchemaType → SchemaType
use_in_union (enum_type b vs) = enum_type b vs
use_in_union (union_type b vs) = union_type b vs
use_in_union (table_type t) = table_type (record t { used_in_union = true })

abbrev pub key_of : TypeRef → String
key_of ref = join_dots ref.resolved_fqtn

-- `resolveType` and `markResolvedType`: the reference and the types after them.
unfoldable pub resolve_and_mark :
    (SchemaType → SchemaType) → String → Types → TypeRef → Result (TypeRef × Types)
resolve_and_mark mark file types ref =
    resolve_type types file ref >>= λ r. ok (r, change (key_of r) mark types)

abbrev pub in_vector : FieldType × Types → Result (FieldType × Types)
in_vector (t, types) = ok (vector t, types)

abbrev pub in_custom : TypeRef × Types → Result (FieldType × Types)
in_custom (ref, types) = ok (custom ref, types)

unfoldable pub resolve_field_type : String → Types → FieldType → Result (FieldType × Types)
resolve_field_type file types (basic b) = ok (basic b, types)
resolve_field_type file types (vector t) = resolve_field_type file types t >>= in_vector
resolve_field_type file types (custom ref) =
    resolve_and_mark use_in_table file types ref >>= in_custom

unfoldable pub resolve_values : String → Types → List UnionValue → Result (List UnionValue × Types)
resolve_values file types [] = ok ([], types)
resolve_values file types (v ∷ vs) =
    resolve_and_mark use_in_union file types v.type_ref >>= λ (ref, types').
    resolve_values file types' vs >>= λ (vs', types'').
    ok (record v { type_ref = ref } ∷ vs', types'')

unfoldable pub resolve_fields : String → Types → List TableField → Result (List TableField × Types)
resolve_fields file types [] = ok ([], types)
resolve_fields file types (f ∷ fs) = resolve_field_type file types f.type >>= λ (t, types').
    resolve_fields file types' fs >>= λ (fs', types''). ok (record f { type = t } ∷ fs', types'')

-- The references of an object are changed in place; its flags may have been set meanwhile.
abbrev pub with_values : List UnionValue → SchemaType → SchemaType
with_values vs (enum_type b us) = enum_type b us
with_values vs (union_type b us) = union_type b vs
with_values vs (table_type t) = table_type t

abbrev pub with_fields : List TableField → SchemaType → SchemaType
with_fields fs (enum_type b us) = enum_type b us
with_fields fs (union_type b us) = union_type b us
with_fields fs (table_type t) = table_type (record t { fields = fs })

abbrev pub on_type : (SchemaType → SchemaType) → String × SchemaType → String × SchemaType
on_type f (key, t) = (key, f t)

-- A round of the loop of `resolveTypes`, for the type at place `i`.
unfoldable pub resolve_entry : String → ℕ → SchemaType → Types → Result Types
resolve_entry file i (enum_type b vs) types = ok types
resolve_entry file i (union_type b vs) types = resolve_values file types vs >>= λ (vs', types').
    ok (update_at i (on_type (with_values vs')) types')
resolve_entry file i (table_type t) types = resolve_fields file types t.fields >>= λ (fs', types').
    ok (update_at i (on_type (with_fields fs')) types')

-- The loop, with `n` types left from place `i` on.
unfoldable pub resolve_entries : String → ℕ → ℕ → Types → Result Types
resolve_entries file i zero types = ok types
resolve_entries file i (suc n) types = elim (get_elem? types i) [
  | none ↦ ok types
  | some (key, t) ↦ resolve_entry file i t types >>= resolve_entries file (i + 1) n
]

abbrev pub with_root : ResolverContext → TypeRef × Types → Result ResolverContext
with_root ctx (ref, types) = ok (record ctx { root_type = some ref; types = types })

unfoldable pub resolve_root : ResolverContext → Option TypeRef → Result ResolverContext
resolve_root ctx none = ok ctx
resolve_root ctx (some ref) =
    resolve_and_mark use_in_table ctx.current_file ctx.types ref >>= with_root ctx

unfoldable pub resolve_types : ResolverContext → Result ResolverContext
resolve_types ctx = resolve_entries ctx.current_file 0 (length ctx.types) ctx.types >>= λ types.
    resolve_root (record ctx { types = types }) ctx.root_type

abbrev pub start : String → ResolverContext
start root_file = record { types = []; root_type = none; files = []; current_file = root_file }

-- `resolveSchemaTypes`, where includes are nested less deeply than `fuel`.
unfoldable pub resolve_schema_types : Files → ℕ → String → Result SchemaTypes
resolve_schema_types fs fuel root_file =
    resolve_file fs fuel root_file (start root_file) >>= resolve_types >>= λ ctx.
    ok (record { types = ctx.types; root_type = ctx.root_type })
