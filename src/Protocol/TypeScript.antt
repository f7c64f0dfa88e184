-- ===== src/Protocol/TypeScript.antt =====
-- tools/protocol/src/output/typescript: the files of the included types, one for each namespace, with what
-- they import. The writing of the files, and prettier, are left out.
pub mod Imports
pub mod Grouped
pub mod Named
pub mod Written
use Prim.Native.String.{String, ◌++◌ as append}
use motis.Prelude.{
  Bool, true, false, not, ◌&&◌, ◌||◌, List, [], ◌∷◌, ◌++◌, map, Option, none, some, str_eq,
  if◌then◌else◌,
}
use motis.Protocol.Names.{join_dots, drop_last, last_part}
use motis.Protocol.Dict.{get, put, change}
use motis.Protocol.Ast.{
  BasicType, bool_type, int_type, float_type, string_type, AstLiteral, boolean_literal,
  numeric_literal, string_literal, ref_literal, AstAttribute, AstMetadata, AstEnumVal,
}
use motis.Protocol.Types.{
  TypeRef, TypeBase, UnionValue, FieldType, basic, vector, custom, TableField, TableType,
  SchemaType, enum_type, union_type, table_type,
}
use motis.Protocol.Results.{Result, ok, err, ◌>>=◌, undefined_type}
use motis.Protocol.Resolver.{contains}
use motis.Protocol.References.{Types, key_of}
use motis.Protocol.JsonSchema.{is_required}

pub record TsFile : Type 0 where
  pub path : String
  pub namespace : String
  pub types : List String

-- `TSContext`, as far as the text depends on it. `filename` is `getFilename`: `path` is the platform's.
pub record TsContext : Type 0 where
  pub schema : Types
  -- `includeType(ctx.typeFilter, _)`
  pub includes : String → Bool
  pub filename : List String → String
  pub files : List (String × TsFile)
  pub types : List String

abbrev pub base : SchemaType → TypeBase
base (enum_type b vs) = b
base (union_type b vs) = b
base (table_type t) = t.base

-- `set.add(s)`
abbrev pub add_name : String → List String → List String
add_name s ss = if contains s ss then ss else ss ++ s ∷ []

abbrev pub push_type : String → TsFile → TsFile
push_type fqtn file = record file { types = file.types ++ fqtn ∷ [] }

abbrev pub add_to_file : TsContext → String → TypeBase → Option TsFile → List (String × TsFile)
add_to_file ctx fqtn b none =
    put (join_dots b.ns)
      (record { path = ctx.filename b.ns; namespace = join_dots b.ns; types = fqtn ∷ [] }) ctx.files
add_to_file ctx fqtn b (some file) = change (join_dots b.ns) (push_type fqtn) ctx.files

abbrev pub collect_type : String → SchemaType → TsContext → TsContext
collect_type fqtn t ctx = record ctx {
  files = add_to_file ctx fqtn (base t) (get (join_dots (base t).ns) ctx.files);
  types = add_name fqtn ctx.types;
}

-- A round of the first loop of `writeTypeScriptOutput`.
unfoldable pub add_type : String → SchemaType → TsContext → TsContext
add_type fqtn t ctx = if ctx.includes fqtn then collect_type fqtn t ctx else ctx

unfoldable pub add_types : Types → TsContext → TsContext
unfolding add_type
add_types [] ctx = ctx
add_types ((fqtn, t) ∷ types) ctx = add_types types (add_type fqtn t ctx)

-- The context that the first loop leaves.
unfoldable pub collect_types : Types → (String → Bool) → (List String → String) → TsContext
unfolding add_types
collect_types schema includes filename =
    add_types schema
      (record { schema = schema; includes = includes; filename = filename; files = []; types = [] })

pub record TsInclude : Type 0 where
  pub filename : String
  pub types : List String

abbrev pub TsIncludes : Type 0
TsIncludes = List (String × TsInclude)

unfoldable pub get_union_tag_type_name : String → String
get_union_tag_type_name type_name = append type_name "Type"

-- What an include gets for a reference to the type.
abbrev pub add_names : String → SchemaType → TsInclude → TsInclude
add_names name (enum_type b vs) i = record i { types = add_name name i.types }
add_names name (table_type t) i = record i { types = add_name name i.types }
add_names name (union_type b vs) i = record i {
  types = add_name (get_union_tag_type_name name) (add_name name i.types);
}

-- `handleTypeRef`
module _ (ctx : TsContext) (file : TsFile) where
  abbrev pub namespace_of : TypeRef → String
  namespace_of ref = join_dots (drop_last ref.resolved_fqtn)

  abbrev pub include_of : TypeRef → Option TsInclude → TsInclude
  include_of ref none = record { filename = ctx.filename (drop_last ref.resolved_fqtn); types = [] }
  include_of ref (some i) = i

  abbrev pub is_foreign : TypeRef → Bool
  is_foreign ref = not (str_eq (namespace_of ref) file.namespace) && contains (key_of ref) ctx.types

  abbrev pub include_type_ref : TypeRef → Option SchemaType → TsIncludes → Result TsIncludes
  include_type_ref ref none m = err (undefined_type (key_of ref))
  include_type_ref ref (some t) m = ok (
      put (namespace_of ref)
        (add_names (last_part ref.resolved_fqtn) t (include_of ref (get (namespace_of ref) m))) m)

  unfoldable pub handle_type_ref : TypeRef → TsIncludes → Result TsIncludes
  handle_type_ref ref m =
      if is_foreign ref then include_type_ref ref (get (key_of ref) ctx.schema) m else ok m

  unfoldable pub handle_field_type : FieldType → TsIncludes → Result TsIncludes
  handle_field_type (basic b) m = ok m
  handle_field_type (vector t) m = handle_field_type t m
  handle_field_type (custom ref) m = handle_type_ref ref m

  unfoldable pub handle_values : List UnionValue → TsIncludes → Result TsIncludes
  handle_values [] m = ok m
  handle_values (v ∷ vs) m = handle_type_ref v.type_ref m >>= handle_values vs

  unfoldable pub handle_fields : List TableField → TsIncludes → Result TsIncludes
  handle_fields [] m = ok m
  handle_fields (f ∷ fs) m = handle_field_type f.type m >>= handle_fields fs

  abbrev pub handle_type : String → Option SchemaType → TsIncludes → Result TsIncludes
  handle_type key none m = err (undefined_type key)
  handle_type key (some (enum_type b vs)) m = ok m
  handle_type key (some (union_type b vs)) m = handle_values vs m
  handle_type key (some (table_type t)) m = handle_fields t.fields m

  unfoldable pub handle_types : List String → TsIncludes → Result TsIncludes
  handle_types [] m = ok m
  handle_types (key ∷ keys) m = handle_type key (get key ctx.schema) m >>= handle_types keys

  unfoldable pub collect_includes : Result TsIncludes
  collect_includes = handle_types file.types []

unfoldable pub get_ts_type_name : FieldType → String
get_ts_type_name (basic bool_type) = "boolean"
get_ts_type_name (basic (int_type t)) = "number"
get_ts_type_name (basic (float_type t)) = "number"
get_ts_type_name (basic string_type) = "string"
get_ts_type_name (vector t) = append (get_ts_type_name t) "[]"
get_ts_type_name (custom ref) = last_part ref.resolved_fqtn
