-- ===== src/Protocol/TypeScript/Imports.antt =====
-- The imports of tools/protocol/src/output/typescript/includes.ts.
pub mod Collected
use Prim.Native.String.{String}
use motis.Prelude.{
  ◌≡◌, refl, Bool, true, false, not, ◌&&◌, ◌||◌, List, [], ◌∷◌, ◌++◌, Option, none, some, all,
  str_eq, str_eq_iff, if◌then◌else◌, arith, Bool-cases, inl, inr, subst, sym,
}
use motis.Protocol.Names.{last_part}
use motis.Protocol.Dict.{get, has, put, get-put, has-get}
use motis.Protocol.Types.{
  TypeRef, UnionValue, FieldType, basic, vector, custom, TableField, SchemaType, enum_type,
  union_type, table_type,
}
use motis.Protocol.Results.{Result, ok, err, ◌>>=◌, Ends}
use motis.Protocol.Resolver.{contains}
use motis.Protocol.Resolver.Including.{contains-snoc}
use motis.Protocol.References.{Types, key_of}
use motis.Protocol.TypeScript.{
  TsContext, TsFile, TsInclude, TsIncludes, add_name, add_names, get_union_tag_type_name,
  namespace_of, include_of, is_foreign, include_type_ref, handle_type_ref, handle_field_type,
  handle_values, handle_fields, handle_type, handle_types, collect_includes,
}

pub contains-add_name :
    (n s : String) (ss : List String) → contains n (add_name s ss) ≡ (contains n ss || str_eq s n)
contains-add_name n s ss = elim (Bool-cases (contains s ss)) [
  | inl old ↦ elim (Bool-cases (str_eq s n)) [
    | inl e ↦ rw (old, subst (λ x. contains x ss ≡ true) ((str_eq_iff s n).0 e) old) refl
    | inr e ↦ ground (arith, old, e)
  ]
  | inr new ↦ rw new (contains-snoc n s ss)
]

abbrev pub has_name : String → Option TsInclude → Bool
has_name n none = false
has_name n (some i) = contains n i.types

-- What a file needs of a type: its name, and for a union that of its tags.
abbrev pub has_names : String → Option SchemaType → Option TsInclude → Bool
has_names name none i = false
has_names name (some (enum_type b vs)) i = has_name name i
has_names name (some (table_type t)) i = has_name name i
has_names name (some (union_type b vs)) i =
    has_name name i && has_name (get_union_tag_type_name name) i

-- Nothing that was imported is lost.
abbrev pub Grows : TsIncludes → TsIncludes → Type 0
Grows m m' = (ns n : String) → has_name n (get ns m) ≡ true → has_name n (get ns m') ≡ true

pub contains-add_names :
    (n name : String) (t : SchemaType) (i : TsInclude)
    → contains n i.types ≡ true
    → contains n (add_names name t i).types ≡ true
contains-add_names n name (enum_type b vs) i h = ground (arith, contains-add_name n name i.types)
contains-add_names n name (table_type t) i h = ground (arith, contains-add_name n name i.types)
contains-add_names n name (union_type b vs) i h = ground (
  arith,
  contains-add_name n name i.types,
  contains-add_name n (get_union_tag_type_name name) (add_name name i.types),
)

pub has_names-add_names :
    (name : String) (t : SchemaType) (i : TsInclude)
    → has_names name (some t) (some (add_names name t i)) ≡ true
has_names-add_names name (enum_type b vs) i =
    ground (arith, contains-add_name name name i.types, str_eq_iff name name)
has_names-add_names name (table_type t) i =
    ground (arith, contains-add_name name name i.types, str_eq_iff name name)
has_names-add_names name (union_type b vs) i =
    let tag = get_union_tag_type_name name in
    ground (
      arith,
      contains-add_name name name i.types,
      contains-add_name name tag (add_name name i.types),
      contains-add_name tag tag (add_name name i.types),
      str_eq_iff name name,
      str_eq_iff tag tag,
    )

pub has_names-Grows :
    (m m' : TsIncludes) (ns name : String) (t : Option SchemaType)
    → Grows m m'
    → has_names name t (get ns m) ≡ true
    → has_names name t (get ns m') ≡ true
has_names-Grows m m' ns name none g h = h
has_names-Grows m m' ns name (some (enum_type b vs)) g h = g ns name h
has_names-Grows m m' ns name (some (table_type t)) g h = g ns name h
has_names-Grows m m' ns name (some (union_type b vs)) g h =
    ground (arith, g ns name, g ns (get_union_tag_type_name name))

-- The references that a file makes.
abbrev pub refs_of_field : FieldType → List TypeRef
refs_of_field (basic b) = []
refs_of_field (vector t) = refs_of_field t
refs_of_field (custom ref) = ref ∷ []

abbrev pub refs_of_values : List UnionValue → List TypeRef
refs_of_values [] = []
refs_of_values (v ∷ vs) = v.type_ref ∷ refs_of_values vs

abbrev pub refs_of_fields : List TableField → List TypeRef
refs_of_fields [] = []
refs_of_fields (f ∷ fs) = refs_of_field f.type ++ refs_of_fields fs

abbrev pub refs_of_type : Option SchemaType → List TypeRef
refs_of_type none = []
refs_of_type (some (enum_type b vs)) = []
refs_of_type (some (union_type b vs)) = refs_of_values vs
refs_of_type (some (table_type t)) = refs_of_fields t.fields

abbrev pub refs_of_types : Types → List String → List TypeRef
refs_of_types schema [] = []
refs_of_types schema (key ∷ keys) = refs_of_type (get key schema) ++ refs_of_types schema keys

-- A type of another namespace that is written to a file is imported.
abbrev pub is_imported : TsContext → TsFile → TsIncludes → TypeRef → Bool
is_imported ctx file m ref =
    not (is_foreign ctx file ref)
    || has_names (last_part ref.resolved_fqtn) (get (key_of ref) ctx.schema)
        (get (namespace_of ctx file ref) m)
