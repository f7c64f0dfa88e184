-- ===== src/Protocol/JsonSchema.antt =====
-- tools/protocol/src/output/json-schema: the JSON schemas of the included types.
pub mod Bounds
use Prim.Native.String.{String, ◌++◌ as append}
use motis.Prelude.{
  ℕ, ◌-◌, ◌^◌, Bool, true, false, not, ◌&&◌, ◌||◌, List, [], ◌∷◌, ◌++◌, map, Option, none, some,
  str_eq, ltb, ◌==◌, if◌then◌else◌,
}
use motis.Prelude.Int.{ℤ, pos, negsuc}
use motis.Protocol.Names.{split_dots, join_dots, last_part, extend_last}
use motis.Protocol.Dict.{get, put}
use motis.Protocol.Ast.{
  IntType, bits, is_unsigned, float_bits, BasicType, bool_type, int_type, float_type, string_type,
  AstAttribute, AstMetadata,
}
use motis.Protocol.Types.{
  TypeRef, TypeBase, UnionValue, FieldType, basic, vector, custom, TableField, TableType,
  SchemaType, enum_type, union_type, table_type,
}
use motis.Protocol.Results.{Result, ok, err, ◌>>=◌, undefined_type}
use motis.Protocol.Json.{Json, text, boolean, number, arr, obj}

abbrev pub Fields : Type 0
Fields = List (String × Json)

-- `JSContext` without the maps that are filled. `URL` is the platform's: `href` and `pathname` are
-- what it gives for the base address.
pub record JsContext : Type 0 where
  pub types : List (String × SchemaType)
  -- `includeType(ctx.typeFilter, _)`
  pub includes : String → Bool
  pub href : String
  pub pathname : String
  pub strict_int_types : Bool
  pub number_formats : Bool
  pub strict_unions : Bool
  pub types_in_unions : Bool
  pub get_ref_url : List String → String
  pub get_tagged_type : List String → List String
  pub type_key : String
  pub include_open_api_discriminators : Bool
  pub const_as_enum : Bool
  pub explicit_additional_properties : Bool

-- The maps.
pub record JsonSchemas : Type 0 where
  pub json_schema : Fields
  pub tagged_to_untagged_type : List (String × String)
  pub untagged_to_tagged_type : List (String × String)

-- `parts.join("/")`
abbrev pub join_slashes : List String → String
join_slashes [] = ""
join_slashes (p ∷ []) = p
join_slashes (p ∷ q ∷ ps) = append p (append "/" (join_slashes (q ∷ ps)))

-- `getDefaultRefUrl`, for a base address with this prefix.
unfoldable pub get_default_ref_url : String → List String → String
get_default_ref_url prefix fqtn = append prefix (join_slashes fqtn)

unfoldable pub get_default_tagged_type : String → List String → List String
get_default_tagged_type suffix fqtn = extend_last suffix fqtn

unfoldable pub get_union_tag_ref_url : JsContext → List String → String
get_union_tag_ref_url ctx fqtn = ctx.get_ref_url (extend_last "Type" fqtn)

unfoldable pub get_const_string : JsContext → String → Json
get_const_string ctx value =
    if ctx.const_as_enum
    then obj (("type", text "string") ∷ ("enum", arr (text value ∷ [])) ∷ [])
    else obj (("type", text "string") ∷ ("const", text value) ∷ [])

abbrev pub when {ℓ} : {A : Type ℓ} → Bool → List A → List A
when b xs = if b then xs else []

-- The bounds of the integers with `b` bits.
abbrev pub strict_bounds : Bool → ℕ → Fields
strict_bounds true b = ("maximum", number (pos (2 ^ b - 1))) ∷ []
strict_bounds false b =
    ("minimum", number (negsuc (2 ^ (b - 1) - 1)))
    ∷ ("maximum", number (pos (2 ^ (b - 1) - 1)))
    ∷ []

abbrev pub int_format : ℕ → Fields
int_format b =
    if b == 32
    then ("format", text "int32") ∷ []
    else if b == 64
    then ("format", text "int64") ∷ []
    else []

abbrev pub int_fields : Bool → Bool → IntType → Fields
int_fields number_formats strict_int_types t =
    ("type", text "integer")
    ∷ ((if is_unsigned t
          then ("minimum", number (pos 0)) ∷ []
          else when number_formats (int_format (bits t)))
        ++ when (strict_int_types && ltb (bits t) 64) (strict_bounds (is_unsigned t) (bits t)))

unfoldable pub basic_type_to_js : JsContext → BasicType → Fields
basic_type_to_js ctx bool_type = ("type", text "boolean") ∷ []
basic_type_to_js ctx (int_type t) = int_fields ctx.number_formats ctx.strict_int_types t
basic_type_to_js ctx (float_type t) =
    ("type", text "number")
    ∷ when ctx.number_formats
        (("format", text (if float_bits t == 32 then "float" else "double")) ∷ [])
basic_type_to_js ctx string_type = ("type", text "string") ∷ []

abbrev pub ref_to : JsContext → List String → Json
ref_to ctx fqtn = obj (("$ref", text (ctx.get_ref_url fqtn)) ∷ [])

unfoldable pub field_type_to_js : JsContext → FieldType → Json
unfolding basic_type_to_js
field_type_to_js ctx (basic b) = obj (basic_type_to_js ctx b)
field_type_to_js ctx (vector t) =
    obj (("type", text "array") ∷ ("items", field_type_to_js ctx t) ∷ [])
field_type_to_js ctx (custom ref) = ref_to ctx ref.resolved_fqtn

-- `isRequired` of util/required.ts, by default true.
unfoldable pub is_required_from : List AstAttribute → Bool
is_required_from [] = true
is_required_from (a ∷ as') =
    if str_eq a.id "optional"
    then false
    else if str_eq a.id "required"
    then true
    else is_required_from as'

unfoldable pub is_required : AstMetadata → Bool
unfolding is_required_from
is_required none = true
is_required (some attributes) = is_required_from attributes
