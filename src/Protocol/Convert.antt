-- ===== src/Protocol/Convert.antt =====
-- `convertSchemaType`, `addTableProperties` and `getJSONSchemaTypes` of
-- tools/protocol/src/output/json-schema/output.ts.
pub mod Links
pub mod Tables
pub mod Adds
pub mod Schemas
pub mod Ready
pub mod Linked
pub mod Closed
use Prim.Native.String.{String, ◌++◌ as append}
use motis.Prelude.{
  Bool, true, false, not, ◌&&◌, ◌||◌, List, [], ◌∷◌, ◌++◌, map, Option, none, some, if◌then◌else◌,
}
use motis.Protocol.Names.{split_dots, join_dots, last_part, extend_last}
use motis.Protocol.Dict.{get, put}
use motis.Protocol.Ast.{AstEnumVal}
use motis.Protocol.Types.{
  TypeRef, TypeBase, UnionValue, FieldType, basic, vector, custom, TableField, TableType,
  SchemaType, enum_type, union_type, table_type,
}
use motis.Protocol.Results.{Result, ok, err, ◌>>=◌, undefined_type}
use motis.Protocol.Json.{Json, text, boolean, arr, obj}
use motis.Protocol.JsonSchema.{
  Fields, JsContext, JsonSchemas, join_slashes, get_union_tag_ref_url, get_const_string, when,
  ref_to, field_type_to_js, is_required,
}

abbrev pub qualified : TypeBase → List String
qualified base = base.ns ++ base.name ∷ []

abbrev pub id_entry : JsContext → List String → Fields
id_entry ctx fqtn = ("$id", text (append ctx.href (join_slashes fqtn))) ∷ []

abbrev pub get_base_js_props : JsContext → TypeBase → Fields
get_base_js_props ctx base = id_entry ctx (qualified base)

abbrev pub get_tagged_base_js_props : JsContext → TypeBase → Fields
get_tagged_base_js_props ctx base = id_entry ctx (ctx.get_tagged_type (qualified base))

-- The variables of `addTableProperties`.
pub record TableProps : Type 0 where
  pub props : Fields
  pub union_cases : List Json
  pub required : List String

abbrev pub key_of_value : UnionValue → String
key_of_value v = join_dots v.type_ref.resolved_fqtn

-- The values of a union that the filter lets through.
abbrev pub included_values : JsContext → List UnionValue → List UnionValue
included_values ctx [] = []
included_values ctx (v ∷ vs) =
    if ctx.includes (key_of_value v) then v ∷ included_values ctx vs else included_values ctx vs

-- `{ if: …, then: … }` for a value of a union.
abbrev pub union_case : JsContext → String → String → UnionValue → Json
union_case ctx tag_name field_name v =
    let fqtn = v.type_ref.resolved_fqtn in
    obj (
      (
        "if",
        obj (("properties", obj ((tag_name, get_const_string ctx (last_part fqtn)) ∷ [])) ∷ []),
      )
      ∷ ("then", obj (("properties", obj ((field_name, ref_to ctx fqtn) ∷ [])) ∷ []))
      ∷ [])

abbrev pub add_plain : JsContext → TableField → TableProps → TableProps
add_plain ctx f p = record p {
  props = put f.name (field_type_to_js ctx f.type) p.props;
  required = p.required ++ when (is_required f.metadata) (f.name ∷ []);
}

-- A field with a union, if the tables are not tagged.
unfoldable pub add_union_field :
    JsContext → TableField → TypeRef → List UnionValue → TableProps → TableProps
add_union_field ctx f ref vs p =
    let tag_name = append f.name "_type" in
    let needed = is_required f.metadata in
    let tagged : TableProps = record p { required = p.required ++ when needed (tag_name ∷ []) } in
    if ctx.strict_unions
    then record tagged {
      required = tagged.required ++ when needed (f.name ∷ []);
      union_cases = p.union_cases ++ map (union_case ctx tag_name f.name) (included_values ctx vs);
    }
    else add_plain ctx f (record tagged {
      props =
          put tag_name (obj (("$ref", text (get_union_tag_ref_url ctx ref.resolved_fqtn)) ∷ []))
            p.props;
    })

abbrev pub add_resolved : JsContext → TableField → TypeRef → SchemaType → TableProps → TableProps
add_resolved ctx f ref (enum_type b vs) p = add_plain ctx f p
add_resolved ctx f ref (table_type t) p = add_plain ctx f p
add_resolved ctx f ref (union_type b vs) p =
    if not ctx.types_in_unions then add_union_field ctx f ref vs p else add_plain ctx f p

abbrev pub add_custom :
    JsContext → TableField → TypeRef → Option SchemaType → TableProps → Result TableProps
add_custom ctx f ref none p = err (undefined_type (join_dots ref.resolved_fqtn))
add_custom ctx f ref (some t) p = ok (add_resolved ctx f ref t p)

abbrev pub add_typed : JsContext → TableField → FieldType → TableProps → Result TableProps
add_typed ctx f (basic b) p = ok (add_plain ctx f p)
add_typed ctx f (vector t) p = ok (add_plain ctx f p)
add_typed ctx f (custom ref) p =
    add_custom ctx f ref (get (join_dots ref.resolved_fqtn) ctx.types) p

unfoldable pub add_fields : JsContext → List TableField → TableProps → Result TableProps
add_fields ctx [] p = ok p
add_fields ctx (f ∷ fs) p = add_typed ctx f f.type p >>= add_fields ctx fs

abbrev pub entry_unless_empty {ℓ} : {A : Type ℓ} → String → (List A → Json) → List A → Fields
entry_unless_empty key f [] = []
entry_unless_empty key f (x ∷ xs) = (key, f (x ∷ xs)) ∷ []

abbrev pub texts : List String → Json
texts ss = arr (map text ss)

abbrev pub table_entries : JsContext → TableProps → Fields
table_entries ctx p =
    entry_unless_empty "properties" obj p.props
    ++ (entry_unless_empty "allOf" arr p.union_cases
        ++ (entry_unless_empty "required" texts p.required
            ++ when ctx.explicit_additional_properties
                (("additionalProperties", boolean true) ∷ [])))

unfoldable pub add_table_properties : JsContext → TableType → Fields → Bool → Result Json
unfolding add_fields
add_table_properties ctx t js tagged =
    let start : TableProps = record {
      props = when tagged ((ctx.type_key, get_const_string ctx t.base.name) ∷ []);
      union_cases = [];
      required = when tagged (ctx.type_key ∷ []);
    } in
    add_fields ctx t.fields start >>= λ p. ok (obj (js ++ table_entries ctx p))

abbrev pub set_schema : String → Json → JsonSchemas → JsonSchemas
set_schema key j s = record s { json_schema = put key j s.json_schema }

abbrev pub tagged_ref : JsContext → UnionValue → Json
tagged_ref ctx v = ref_to ctx (ctx.get_tagged_type v.type_ref.resolved_fqtn)

-- `discriminator.mapping`, from what is there.
abbrev pub mapping : JsContext → List UnionValue → Fields → Fields
mapping ctx [] m = m
mapping ctx (v ∷ vs) m = mapping ctx vs (
    put (last_part v.type_ref.resolved_fqtn)
      (text (ctx.get_ref_url (ctx.get_tagged_type v.type_ref.resolved_fqtn))) m)

abbrev pub discriminator : JsContext → List UnionValue → Fields
discriminator ctx vs =
    (
      "discriminator",
      obj (("propertyName", text ctx.type_key) ∷ ("mapping", obj (mapping ctx vs [])) ∷ []),
    )
    ∷ []

-- The object of a union whose members are tagged, and of one whose members are not.
abbrev pub one_of_fields : JsContext → TypeBase → List UnionValue → Fields
one_of_fields ctx base vs =
    get_base_js_props ctx base
    ++ ("oneOf", arr (map (tagged_ref ctx) vs))
      ∷ when ctx.include_open_api_discriminators (discriminator ctx vs)

abbrev pub any_of_fields : JsContext → TypeBase → List UnionValue → Fields
any_of_fields ctx base vs =
    get_base_js_props ctx base
    ++ ("anyOf", arr (map (λ v. ref_to ctx v.type_ref.resolved_fqtn) vs)) ∷ []

abbrev pub union_tag_fields : JsContext → TypeBase → List UnionValue → Fields
union_tag_fields ctx base vs =
    id_entry ctx (base.ns ++ append base.name "Type" ∷ [])
    ++ ("type", text "string")
      ∷ ("enum", texts (map (λ v. last_part v.type_ref.resolved_fqtn) vs))
      ∷ []

abbrev pub enum_fields : JsContext → TypeBase → List AstEnumVal → Fields
enum_fields ctx base vs =
    get_base_js_props ctx base
    ++ ("type", text "string") ∷ ("enum", texts (map (λ v. v.id) vs)) ∷ []

unfoldable pub convert_union :
    JsContext → String → TypeBase → List UnionValue → JsonSchemas → JsonSchemas
convert_union ctx key base vs s =
    let included = included_values ctx vs in
    if ctx.types_in_unions
    then set_schema key (obj (one_of_fields ctx base included)) s
    else set_schema (append key "Type") (obj (union_tag_fields ctx base included))
        (set_schema key (obj (any_of_fields ctx base included)) s)

abbrev pub object_type : Fields
object_type = ("type", text "object") ∷ []

abbrev pub convert_untagged : JsContext → String → TableType → JsonSchemas → Result JsonSchemas
convert_untagged ctx key t s =
    add_table_properties ctx t (get_base_js_props ctx t.base ++ object_type) false >>= λ j.
    ok (set_schema key j s)

abbrev pub convert_tagged : JsContext → String → TableType → JsonSchemas → Result JsonSchemas
convert_tagged ctx key t s =
    let tagged_key = join_dots (ctx.get_tagged_type (split_dots key)) in
    add_table_properties ctx t (get_tagged_base_js_props ctx t.base ++ object_type) true >>= λ j.
    ok (record {
      json_schema = put tagged_key j s.json_schema;
      tagged_to_untagged_type = put tagged_key key s.tagged_to_untagged_type;
      untagged_to_tagged_type = put key tagged_key s.untagged_to_tagged_type;
    })

unfoldable pub convert_schema_type :
    JsContext → String → SchemaType → JsonSchemas → Result JsonSchemas
unfolding convert_union add_table_properties
convert_schema_type ctx key (enum_type base vs) s =
    ok (set_schema key (obj (enum_fields ctx base vs)) s)
convert_schema_type ctx key (union_type base vs) s = ok (convert_union ctx key base vs s)
convert_schema_type ctx key (table_type t) s =
    (if not ctx.types_in_unions || t.used_in_table then convert_untagged ctx key t s else ok s)
    >>= λ s'. if ctx.types_in_unions && t.used_in_union then convert_tagged ctx key t s' else ok s'

-- The loop of `getJSONSchemaTypes`.
unfoldable pub convert_types :
    JsContext → List (String × SchemaType) → JsonSchemas → Result JsonSchemas
unfolding convert_schema_type
convert_types ctx [] s = ok s
convert_types ctx ((key, t) ∷ types) s =
    (if ctx.includes key then convert_schema_type ctx key t s else ok s) >>= convert_types ctx types

unfoldable pub get_json_schema_types : JsContext → Result JsonSchemas
unfolding convert_types
get_json_schema_types ctx =
    convert_types ctx ctx.types
      (record { json_schema = []; tagged_to_untagged_type = []; untagged_to_tagged_type = [] })
