-- ===== src/Protocol/Convert/Schemas.antt =====
-- The links and the keys of the schemas that `convertSchemaType` of
-- tools/protocol/src/output/json-schema/output.ts sets.
use Prim.Native.String.{String, ◌++◌ as append}
use motis.Prelude.{
  ◌≡◌, true, false, not, ◌&&◌, ◌||◌, List, [], ◌∷◌, ◌++◌, map, All, Bool-cases, inl, inr,
}
use motis.Protocol.Names.{split_dots, join_dots}
use motis.Protocol.Dict.{put}
use motis.Protocol.Types.{
  TypeBase, UnionValue, TableType, SchemaType, enum_type, union_type, table_type,
}
use motis.Protocol.Results.{Result, ok, err, ◌>>=◌, Ends}
use motis.Protocol.Json.{Json}
use motis.Protocol.JsonSchema.{Fields, JsContext, JsonSchemas, ref_to}
use motis.Protocol.Convert.{
  one_of_fields, any_of_fields, union_tag_fields, enum_fields, included_values, tagged_ref, mapping,
  discriminator, convert_union, convert_untagged, convert_tagged, convert_schema_type, set_schema,
  add_table_properties, key_of_value, get_base_js_props, get_tagged_base_js_props, object_type,
  id_entry,
}
use motis.Protocol.Convert.Links.{
  Links, FieldLinks, Links-obj, Links-arr, Links-texts, FieldLinks-when, FieldLinks-put, IsLink-any,
  Links-ref_to,
}
use motis.Protocol.Convert.Tables.{FieldIsLinked, add_table_properties-Links}
use motis.Protocol.Convert.Adds.{
  untagged_key, tagged_key, keys_of, ValueIsLinked, TypeIsLinked, MapLinks, Adds, set_schema-Adds,
  Adds-trans, if-Adds, if-Ends, Ends-Adds,
}

module _ (P : String → Type 0) (ctx : JsContext) where
  id_entry-Links : (fqtn : List String) → FieldLinks P (id_entry ctx fqtn)
  id_entry-Links fqtn = (tt, tt, tt)

  All-tagged_ref :
      (vs : List UnionValue)
      → ctx.types_in_unions ≡ true
      → All (ValueIsLinked P ctx) vs
      → All (Links P) (map (tagged_ref ctx) (included_values ctx vs))
  All-tagged_ref [] e h = tt
  All-tagged_ref (v ∷ vs) e h = elim (Bool-cases (ctx.includes (key_of_value v))) [
    | inl i ↦ rw i (Links-ref_to P ctx _ (h.0.0 e), All-tagged_ref vs e h.1)
    | inr i ↦ rw i (All-tagged_ref vs e h.1)
  ]

  All-ref_to :
      (vs : List UnionValue)
      → ctx.types_in_unions ≡ false
      → All (ValueIsLinked P ctx) vs
      → All (Links P) (map (λ v. ref_to ctx v.type_ref.resolved_fqtn) (included_values ctx vs))
  All-ref_to [] e h = tt
  All-ref_to (v ∷ vs) e h = elim (Bool-cases (ctx.includes (key_of_value v))) [
    | inl i ↦ rw i (Links-ref_to P ctx _ (h.0.1 e), All-ref_to vs e h.1)
    | inr i ↦ rw i (All-ref_to vs e h.1)
  ]

  FieldLinks-mapping :
      (vs : List UnionValue) (m : Fields)
      → ctx.types_in_unions ≡ true
      → All (ValueIsLinked P ctx) vs
      → FieldLinks P m
      → FieldLinks P (mapping ctx (included_values ctx vs) m)
  FieldLinks-mapping [] m e h l = l
  FieldLinks-mapping (v ∷ vs) m e h l = elim (Bool-cases (ctx.includes (key_of_value v))) [
    | inl i ↦
        rw i
          (FieldLinks-mapping vs _ e h.1 (FieldLinks-put P _ _ m (IsLink-any P _ _ (h.0.0 e)) tt l))
    | inr i ↦ rw i (FieldLinks-mapping vs m e h.1 l)
  ]

  convert_union-Adds :
      (key : String) (base : TypeBase) (vs : List UnionValue) (s : JsonSchemas)
      → All (ValueIsLinked P ctx) vs
      → MapLinks P ctx s.json_schema
      → Adds P ctx (keys_of ctx key (union_type base vs)) s (convert_union ctx key base vs s)
  unfolding convert_union
  convert_union-Adds key base vs s h l =
      if-Adds P ctx ctx.types_in_unions (key ∷ []) (key ∷ append key "Type" ∷ []) s _ _
        (λ e.
          set_schema-Adds P ctx key _ s
            (Links-obj P (one_of_fields ctx base (included_values ctx vs)) (
              tt,
              tt,
              (
                tt,
                Links-arr P _ (All-tagged_ref vs e h),
                FieldLinks-when P ctx.include_open_api_discriminators
                    (discriminator ctx (included_values ctx vs))
                    (
                      tt,
                      (
                        tt,
                        tt,
                        (
                          tt,
                          Links-obj P (mapping ctx (included_values ctx vs) [])
                              (FieldLinks-mapping vs [] e h tt),
                          tt,
                        ),
                      ),
                      tt,
                    ),
              ),
            ))
            l)
        (λ e.
          let first =
            set_schema-Adds P ctx key _ s
              (Links-obj P (any_of_fields ctx base (included_values ctx vs))
                (tt, tt, (tt, Links-arr P _ (All-ref_to vs e h), tt)))
              l in
          Adds-trans P ctx {ks = key ∷ []} {ls = append key "Type" ∷ []} first (
            set_schema-Adds P ctx (append key "Type") _ _
              (Links-obj P (union_tag_fields ctx base (included_values ctx vs))
                (tt, tt, (tt, tt, (tt, Links-texts P _, tt))))
              first.links))

  convert_untagged-Adds :
      (key : String) (t : TableType) (s : JsonSchemas)
      → All (λ f. FieldIsLinked P ctx f.type) t.fields
      → MapLinks P ctx s.json_schema
      → Ends (Adds P ctx (key ∷ []) s) (λ e. ⊥) (convert_untagged ctx key t s)
  convert_untagged-Adds key t s h l =
      then_set (add_table_properties ctx t (get_base_js_props ctx t.base ++ object_type) false)
        (add_table_properties-Links P ctx t _ false h (tt, tt, (tt, tt, tt)))
    where
      then_set :
          (r : Result Json)
          → Ends (Links P) (λ e. ⊥) r
          → Ends (Adds P ctx (key ∷ []) s) (λ e. ⊥) (r >>= λ j. ok (set_schema key j s))
      then_set (ok j) k = set_schema-Adds P ctx key j s k l
      then_set (err e) k = k

  convert_tagged-Adds :
      (key : String) (t : TableType) (s : JsonSchemas)
      → All (λ f. FieldIsLinked P ctx f.type) t.fields
      → MapLinks P ctx s.json_schema
      → Ends
          (Adds P ctx (join_dots (ctx.get_tagged_type (split_dots key)) ∷ []) s)
          (λ e. ⊥)
          (convert_tagged ctx key t s)
  convert_tagged-Adds key t s h l =
      then_set
        (add_table_properties ctx t (get_tagged_base_js_props ctx t.base ++ object_type) true)
        (add_table_properties-Links P ctx t _ true h (tt, tt, (tt, tt, tt)))
    where
      then_set :
          (r : Result Json)
          → Ends (Links P) (λ e. ⊥) r
          → Ends
              (Adds P ctx (join_dots (ctx.get_tagged_type (split_dots key)) ∷ []) s)
              (λ e. ⊥)
              (r >>= λ j. ok (record {
                json_schema =
                    put (join_dots (ctx.get_tagged_type (split_dots key))) j s.json_schema;
                tagged_to_untagged_type =
                    put
                      (join_dots (ctx.get_tagged_type (split_dots key)))
                      key
                      s.tagged_to_untagged_type;
                untagged_to_tagged_type =
                    put key
                      (join_dots (ctx.get_tagged_type (split_dots key)))
                      s.untagged_to_tagged_type;
              }))
      then_set (ok j) k =
          let a =
            set_schema-Adds P ctx (join_dots (ctx.get_tagged_type (split_dots key))) j s k l in
          record { links = a.links; grows = a.grows; there = a.there }
      then_set (err e) k = k

  pub convert_schema_type-Adds :
      (key : String) (t : SchemaType) (s : JsonSchemas)
      → TypeIsLinked P ctx t
      → MapLinks P ctx s.json_schema
      → Ends (Adds P ctx (keys_of ctx key t) s) (λ e. ⊥) (convert_schema_type ctx key t s)
  unfolding convert_schema_type
  convert_schema_type-Adds key (enum_type base vs) s h l =
      set_schema-Adds P ctx key _ s
        (Links-obj P (enum_fields ctx base vs)
          (tt, tt, (tt, tt, (tt, Links-texts P (map (λ v. v.id) vs), tt))))
        l
  convert_schema_type-Adds key (union_type base vs) s h l = convert_union-Adds key base vs s h l
  convert_schema_type-Adds key (table_type t) s h l =
      Ends-Adds P ctx (untagged_key ctx key t) (tagged_key ctx key t) s _ _
        (if-Ends P ctx (not ctx.types_in_unions || t.used_in_table) (key ∷ []) s
          (convert_untagged ctx key t s) (convert_untagged-Adds key t s h l) l)
        λ s' l'.
          if-Ends P ctx (ctx.types_in_unions && t.used_in_union) _ s' (convert_tagged ctx key t s')
            (convert_tagged-Adds key t s' h l') l'
