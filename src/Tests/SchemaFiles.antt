-- ===== src/Tests/SchemaFiles.antt =====
-- Two schema files that include each other, their types with the references resolved, a filter, and the
-- options of an output.
use Prim.Native.String.{String}
use motis.Prelude.{Bool, true, false, List, [], ◌∷◌, none, str_eq, if◌then◌else◌}
use motis.Protocol.Ast
use motis.Protocol.Ast.{
  AstTopLevel, AstEnumVal, AstField, AstFieldType, include_file, namespace, union_decl, table_decl,
  root_type, int_type, int32, bits, is_unsigned,
}
use motis.Protocol.Types.{
  TypeRef, TypeBase, UnionValue, TableField, FieldType, basic, vector, custom, union_type,
  table_type,
}
use motis.Protocol.Resolver.{Loaded, missing, parsed, Files}
use motis.Protocol.Names.{extend_last}
use motis.Protocol.References.{Types}
use motis.Protocol.Filter.{Piece, char, within_part}
use motis.Protocol.JsonSchema.{JsContext, get_default_ref_url}

abbrev pub value : String → AstEnumVal
value id = record { id = id; value = none; metadata = none }

abbrev pub field : String → AstFieldType → AstField
field name type = record { name = name; type = type; default_value = none; metadata = none }

-- In namespace motis.net a union of two tables, one of which has points of the other file.
abbrev pub net_ast : List AstTopLevel
net_ast =
    include_file "base.fbs"
    ∷ namespace "motis.net"
    ∷ table_decl false "Ping" none (
        field "at" (Ast.vector (Ast.custom "base.Point"))
        ∷ field "n" (Ast.basic (int_type int32))
        ∷ [])
    ∷ table_decl false "Pong" none (field "last" (Ast.custom "Ping") ∷ [])
    ∷ union_decl "Content" none (value "Ping" ∷ value "Pong" ∷ [])
    ∷ table_decl false "Message" none (field "content" (Ast.custom "Content") ∷ [])
    ∷ root_type "Message"
    ∷ []

abbrev pub base_ast : List AstTopLevel
base_ast =
    include_file "net.fbs"
    ∷ namespace "motis.base"
    ∷ table_decl true "Point" none (field "x" (Ast.basic (int_type int32)) ∷ [])
    ∷ []

abbrev pub load : String → Loaded
load f =
    if str_eq "net.fbs" f
    then parsed net_ast
    else if str_eq "base.fbs" f
    then parsed base_ast
    else missing

abbrev pub fs : Files
fs = record { load = load; resolve = λ p. p; relative = λ p. p }

abbrev pub paths : List String
paths = "net.fbs" ∷ "base.fbs" ∷ []

abbrev pub point_base : TypeBase
point_base = record {
  name = "Point";
  ns = "motis" ∷ "base" ∷ [];
  fbs_file = "base.fbs";
  relative_fbs_file = "base.fbs";
  metadata = none;
}

abbrev pub net_base : String → TypeBase
net_base name = record {
  name = name;
  ns = "motis" ∷ "net" ∷ [];
  fbs_file = "net.fbs";
  relative_fbs_file = "net.fbs";
  metadata = none;
}

abbrev pub ref : String → List String → TypeRef
ref input fqtn = record {
  input = input;
  current_namespace = "motis" ∷ "net" ∷ [];
  resolved_fqtn = fqtn;
}

abbrev pub table_field : String → FieldType → TableField
table_field name type = record { name = name; type = type; default_value = none; metadata = none }

abbrev pub union_value : TypeRef → UnionValue
union_value type_ref = record { type_ref = type_ref; value = none; metadata = none }

abbrev pub ping : TypeRef
ping = ref "Ping" ("motis" ∷ "net" ∷ "Ping" ∷ [])

abbrev pub pong : TypeRef
pong = ref "Pong" ("motis" ∷ "net" ∷ "Pong" ∷ [])

abbrev pub content : TypeRef
content = ref "Content" ("motis" ∷ "net" ∷ "Content" ∷ [])

abbrev pub message : TypeRef
message = ref "Message" ("motis" ∷ "net" ∷ "Message" ∷ [])

-- The types of the two files with their references resolved.
abbrev pub resolved : Types
resolved =
    (
      "motis.base.Point",
      table_type (record {
        base = point_base;
        is_struct = true;
        fields = table_field "x" (basic (int_type int32)) ∷ [];
        used_in_union = false;
        used_in_table = true;
      }),
    )
    ∷ (
      "motis.net.Ping",
      table_type (record {
        base = net_base "Ping";
        is_struct = false;
        fields =
            table_field "at" (vector (custom (ref "base.Point" ("motis" ∷ "base" ∷ "Point" ∷ []))))
            ∷ table_field "n" (basic (int_type int32))
            ∷ [];
        used_in_union = true;
        used_in_table = true;
      }),
    )
    ∷ (
      "motis.net.Pong",
      table_type (record {
        base = net_base "Pong";
        is_struct = false;
        fields = table_field "last" (custom ping) ∷ [];
        used_in_union = true;
        used_in_table = false;
      }),
    )
    ∷ (
      "motis.net.Content",
      union_type (net_base "Content") (union_value ping ∷ union_value pong ∷ []),
    )
    ∷ (
      "motis.net.Message",
      table_type (record {
        base = net_base "Message";
        is_struct = false;
        fields = table_field "content" (custom content) ∷ [];
        used_in_union = false;
        used_in_table = true;
      }),
    )
    ∷ []

abbrev pub pieces : List Piece
pieces = char b'm' ∷ char b'.' ∷ char b'n' ∷ within_part ∷ []

abbrev pub js_context : JsContext
js_context = record {
  types = resolved;
  includes = λ key. true;
  href = "https://motis-project.de/api/";
  pathname = "/api/";
  strict_int_types = true;
  number_formats = true;
  strict_unions = true;
  types_in_unions = true;
  get_ref_url = get_default_ref_url "/api/";
  get_tagged_type = extend_last "T";
  type_key = "_type";
  include_open_api_discriminators = false;
  const_as_enum = false;
  explicit_additional_properties = true;
}

abbrev pub every : String → Bool
every key = true

abbrev pub net_path : List String → String
net_path ns = "net.ts"
