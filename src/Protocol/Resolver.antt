-- ===== src/Protocol/Resolver.antt =====
-- tools/protocol/src/schema/resolver.ts: the files of a schema are read one after the other, and the
-- references to types are resolved.
pub mod Including
pub mod Reading
use Prim.Native.Char.{code}
use Prim.Native.String.{String}
use motis.Prelude.{
  ℕ, zero, suc, ◌+◌, Bool, true, false, List, [], ◌∷◌, ◌++◌, map, Option, none, some, str_eq, ◌==◌,
  if◌then◌else◌, any, length, take, get_elem?,
}
use motis.Protocol.Names.{split_dots, join_dots}
use motis.Protocol.Dict.{get, has, put, change}
use motis.Protocol.Ast
use motis.Protocol.Ast.{
  AstFieldType, AstEnumVal, AstField, AstTopLevel, include_file, namespace, enum_decl, union_decl,
  table_decl, root_type, attribute_decl,
}
use motis.Protocol.Types.{
  TypeRef, TypeBase, UnionValue, FieldType, basic, vector, custom, TableField, TableType,
  SchemaType, enum_type, union_type, table_type, SchemaTypes,
}
use motis.Protocol.Results.{
  Result, ok, err, ◌>>=◌, file_not_found, parse_failed, already_defined, unknown_type, out_of_fuel,
}

-- What reading and parsing a file gives: `fs` and the parser library are other projects' code.
pub data Loaded : Type 0 where
  missing unparsable : Loaded
  parsed : List AstTopLevel → Loaded

-- The file system, the parser, and `path` for the root directory.
pub record Files : Type 0 where
  pub load : String → Loaded
  -- `path.resolve(ctx.rootDir, _)`
  pub resolve : String → String
  -- `path.relative(ctx.rootDir, _)`
  pub relative : String → String

pub record ResolverContext : Type 0 where
  pub types : List (String × SchemaType)
  pub root_type : Option TypeRef
  pub files : List String
  pub current_file : String

-- `s.replace("\\", "/")`, which replaces the first one.
abbrev pub replace_backslash : String → String
replace_backslash String.[] = String.[]
replace_backslash (String.◌∷◌ c s) =
    if code c == 92 then String.◌∷◌ "/" s else String.◌∷◌ c (replace_backslash s)

unfoldable pub get_relative_fbs_file : Files → String → String
get_relative_fbs_file fs file = replace_backslash (fs.relative file)

abbrev pub namespaced : List String → String → List String
namespaced ns id = ns ++ split_dots id

abbrev pub extract_type : List String → String → TypeRef
extract_type ns id = record { input = id; current_namespace = ns; resolved_fqtn = [] }

abbrev pub extract_field_type : List String → AstFieldType → FieldType
extract_field_type ns (Ast.basic b) = basic b
extract_field_type ns (Ast.vector t) = vector (extract_field_type ns t)
extract_field_type ns (Ast.custom id) = custom (extract_type ns id)

abbrev pub extract_value : List String → AstEnumVal → UnionValue
extract_value ns a = record {
  type_ref = extract_type ns a.id;
  value = a.value;
  metadata = a.metadata;
}

abbrev pub extract_field : List String → AstField → TableField
extract_field ns a = record {
  name = a.name;
  type = extract_field_type ns a.type;
  default_value = a.default_value;
  metadata = a.metadata;
}

-- `verifyNewType`, and the `set` that follows it.
unfoldable pub define_type : String → SchemaType → ResolverContext → Result ResolverContext
define_type key t ctx =
    if has key ctx.types
    then err (already_defined key)
    else ok (record ctx { types = put key t ctx.types })

-- The loop of `extractTypes` with its `currentNamespace`.
module _ (fbs_file relative_fbs_file : String) where
  abbrev pub base_of : List String → String → Ast.AstMetadata → TypeBase
  base_of ns name metadata = record {
    name = name;
    ns = ns;
    fbs_file = fbs_file;
    relative_fbs_file = relative_fbs_file;
    metadata = metadata;
  }

  unfoldable pub extract_from :
      List String → List AstTopLevel → ResolverContext → Result ResolverContext
  extract_from ns [] ctx = ok ctx
  extract_from ns (include_file path ∷ es) ctx = extract_from ns es ctx
  extract_from ns (namespace name ∷ es) ctx = extract_from (split_dots name) es ctx
  extract_from ns (enum_decl name base_type metadata values ∷ es) ctx = do
    ctx' ←
        define_type (join_dots (namespaced ns name)) (enum_type (base_of ns name metadata) values)
          ctx
    extract_from ns es ctx'
  extract_from ns (union_decl name metadata values ∷ es) ctx = do
    ctx' ←
        define_type (join_dots (namespaced ns name))
          (union_type (base_of ns name metadata) (map (extract_value ns) values)) ctx
    extract_from ns es ctx'
  extract_from ns (table_decl is_struct name metadata fields ∷ es) ctx = do
    ctx' ←
        define_type (join_dots (namespaced ns name))
          (table_type (record {
            base = base_of ns name metadata;
            is_struct = is_struct;
            fields = map (extract_field ns) fields;
            used_in_union = false;
            used_in_table = false;
          }))
          ctx
    extract_from ns es ctx'
  extract_from ns (root_type id ∷ es) ctx =
      extract_from ns es (record ctx { root_type = some (extract_type ns id) })
  extract_from ns (attribute_decl id ∷ es) ctx = extract_from ns es ctx

unfoldable pub extract_types :
    Files → String → List AstTopLevel → ResolverContext → Result ResolverContext
extract_types fs file ast ctx =
    extract_from file (get_relative_fbs_file fs file) [] ast (record ctx { current_file = file })

-- The loop over the includes of a file, where `self` is `resolveFile`.
unfoldable pub resolve_includes :
    (String → ResolverContext → Result ResolverContext)
    → Files
    → List AstTopLevel
    → ResolverContext
    → Result ResolverContext
resolve_includes self fs [] ctx = ok ctx
resolve_includes self fs (include_file path ∷ es) ctx =
    self (fs.resolve path) ctx >>= resolve_includes self fs es
resolve_includes self fs (e ∷ es) ctx = resolve_includes self fs es ctx

abbrev pub contains : String → List String → Bool
contains s ss = any (λ t. str_eq t s) ss

abbrev pub enter : String → ResolverContext → ResolverContext
enter file ctx = record ctx { current_file = file; files = ctx.files ++ file ∷ [] }

-- `resolveFile`; the fuel is the depth of nested includes.
unfoldable pub resolve_file : Files → ℕ → String → ResolverContext → Result ResolverContext
resolve_file fs zero file ctx = err out_of_fuel
resolve_file fs (suc fuel) file ctx =
    if contains file ctx.files then ok ctx else elim (fs.load file) [
      | missing ↦ err (file_not_found file)
      | unparsable ↦ err (parse_failed file)
      | parsed ast ↦
          resolve_includes (resolve_file fs fuel) fs ast (enter file ctx)
          >>= extract_types fs file ast
    ]
