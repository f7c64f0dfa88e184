-- ===== src/Protocol/Convert/Tables.antt =====
-- The links in the schema of a table, in tools/protocol/src/output/json-schema/output.ts.
use Prim.Native.String.{String, ◌++◌ as append}
use motis.Prelude.{
  ◌≡◌, refl, Bool, true, false, not, List, [], ◌∷◌, ◌++◌, map, some, All, if◌then◌else◌, Bool-cases,
  inl, inr, arith,
}
use motis.Protocol.Names.{join_dots, last_part}
use motis.Protocol.Dict.{get}
use motis.Protocol.Types.{
  TypeRef, UnionValue, FieldType, basic, vector, custom, TableField, TableType, SchemaType,
  enum_type, union_type, table_type,
}
use motis.Protocol.Results.{Result, ok, err, ◌>>=◌, Ends}
use motis.Protocol.Json.{Json, arr, obj}
use motis.Protocol.JsonSchema.{
  Fields, JsContext, get_union_tag_ref_url, get_const_string, when, field_type_to_js,
}
use motis.Protocol.Convert.{
  TableProps, included_values, union_case, add_plain, add_union_field, add_resolved, add_typed,
  add_fields, entry_unless_empty, texts, table_entries, add_table_properties, key_of_value,
}
use motis.Protocol.Convert.Links.{
  Links, FieldLinks, Links-obj, Links-arr, Links-texts, FieldLinks-append, FieldLinks-when,
  FieldLinks-put, Links-get_const_string, Links-ref_to, FieldTypeLinks, Links-field_type,
  IsLink-field_type, IsLink-const,
}

module _ (P : String → Type 0) (ctx : JsContext) where
  -- The links that a field with this type may have.
  abbrev pub ResolvedLinks : TypeRef → SchemaType → Type 0
  ResolvedLinks ref (enum_type b vs) = Unit
  ResolvedLinks ref (table_type t) = Unit
  ResolvedLinks ref (union_type b vs) =
      P (get_union_tag_ref_url ctx ref.resolved_fqtn)
      × All (λ v. P (ctx.get_ref_url v.type_ref.resolved_fqtn)) vs

  -- What the type of a field names is there, and its links are as `P` says. The links to the members
  -- of a union stand in the table only if tables are not tagged.
  abbrev pub FieldIsLinked : FieldType → Type 0
  FieldIsLinked (basic b) = Unit
  FieldIsLinked (vector t) = FieldTypeLinks P ctx t
  FieldIsLinked (custom ref) =
      (t : SchemaType) × (get (join_dots ref.resolved_fqtn) ctx.types ≡ some t)
      × P (ctx.get_ref_url ref.resolved_fqtn)
      × (ctx.types_in_unions ≡ false → ResolvedLinks ref t)

  abbrev PropsLinks : TableProps → Type 0
  PropsLinks p = FieldLinks P p.props × All (Links P) p.union_cases

  All-append : (js ks : List Json) → All (Links P) js → All (Links P) ks → All (Links P) (js ++ ks)
  All-append [] ks a b = b
  All-append (j ∷ js) ks a b = (a.0, All-append js ks a.1 b)

  Links-union_case :
      (tag_name field_name : String) (v : UnionValue)
      → P (ctx.get_ref_url v.type_ref.resolved_fqtn)
      → Links P (union_case ctx tag_name field_name v)
  Links-union_case tag_name field_name v h =
      let fqtn = v.type_ref.resolved_fqtn in
      let value = get_const_string ctx (last_part fqtn) in
      let tag : Links P (obj (("properties", obj ((tag_name, value) ∷ [])) ∷ [])) =
        Links-obj P (("properties", obj ((tag_name, value) ∷ [])) ∷ []) (
          tt,
          Links-obj P ((tag_name, value) ∷ []) (
            IsLink-const P ctx tag_name (last_part fqtn),
            Links-get_const_string P ctx (last_part fqtn),
            tt,
          ),
          tt,
        ) in
      (tt, tag, (tt, (tt, (tt, Links-ref_to P ctx fqtn h, tt), tt), tt))

  All-union_cases :
      (tag_name field_name : String) (vs : List UnionValue)
      → All (λ v. P (ctx.get_ref_url v.type_ref.resolved_fqtn)) vs
      → All (Links P) (map (union_case ctx tag_name field_name) (included_values ctx vs))
  All-union_cases tag_name field_name [] h = tt
  All-union_cases tag_name field_name (v ∷ vs) h =
      elim (Bool-cases (ctx.includes (key_of_value v))) [
        | inl e ↦
            rw e (
              Links-union_case tag_name field_name v h.0,
              All-union_cases tag_name field_name vs h.1,
            )
        | inr e ↦ rw e (All-union_cases tag_name field_name vs h.1)
      ]

  if-PropsLinks :
      (b : Bool) (x y : TableProps)
      → (b ≡ true → PropsLinks x)
      → (b ≡ false → PropsLinks y)
      → PropsLinks (if b then x else y)
  if-PropsLinks true x y h k = h refl
  if-PropsLinks false x y h k = k refl

  add_plain-Links :
      (f : TableField) (p : TableProps)
      → FieldTypeLinks P ctx f.type
      → PropsLinks p
      → PropsLinks (add_plain ctx f p)
  add_plain-Links f p h (a, b) = (
    FieldLinks-put P f.name (field_type_to_js ctx f.type) p.props
        (IsLink-field_type P ctx f.name f.type) (Links-field_type P ctx f.type h) a,
    b,
  )

  add_union_field-Links :
      (f : TableField) (ref : TypeRef) (vs : List UnionValue) (p : TableProps)
      → FieldTypeLinks P ctx f.type
      → P (get_union_tag_ref_url ctx ref.resolved_fqtn)
      → All (λ v. P (ctx.get_ref_url v.type_ref.resolved_fqtn)) vs
      → PropsLinks p
      → PropsLinks (add_union_field ctx f ref vs p)
  unfolding add_union_field
  add_union_field-Links f ref vs p h tag values (a, b) =
      if-PropsLinks ctx.strict_unions _ _
        (λ e. (
          a,
          All-append p.union_cases _ b (All-union_cases (append f.name "_type") f.name vs values),
        ))
        (λ e. (
          FieldLinks-put P f.name (field_type_to_js ctx f.type) _
              (IsLink-field_type P ctx f.name f.type) (Links-field_type P ctx f.type h)
              (FieldLinks-put P (append f.name "_type") _ p.props tt (tag, tt, tt) a),
          b,
        ))

  add_resolved-Links :
      (f : TableField) (ref : TypeRef) (t : SchemaType) (p : TableProps)
      → FieldTypeLinks P ctx f.type
      → (ctx.types_in_unions ≡ false → ResolvedLinks ref t)
      → PropsLinks p
      → PropsLinks (add_resolved ctx f ref t p)
  add_resolved-Links f ref (enum_type b vs) p h k l = add_plain-Links f p h l
  add_resolved-Links f ref (table_type t) p h k l = add_plain-Links f p h l
  add_resolved-Links f ref (union_type b vs) p h k l =
      if-PropsLinks (not ctx.types_in_unions) _ _
        (λ e. let (tag, values) = k (untagged e) in add_union_field-Links f ref vs p h tag values l)
        (λ e. add_plain-Links f p h l)
    where
      untagged : not ctx.types_in_unions ≡ true → ctx.types_in_unions ≡ false
      untagged e = ground arith

  link_of : (t : FieldType) → FieldIsLinked t → FieldTypeLinks P ctx t
  link_of (basic b) h = tt
  link_of (vector t) h = h
  link_of (custom ref) (t, e, p, k) = p

  add_typed-Links :
      (f : TableField) (t : FieldType) (p : TableProps)
      → FieldTypeLinks P ctx f.type
      → FieldIsLinked t
      → PropsLinks p
      → Ends PropsLinks (λ e. ⊥) (add_typed ctx f t p)
  add_typed-Links f (basic b) p h k l = add_plain-Links f p h l
  add_typed-Links f (vector t) p h k l = add_plain-Links f p h l
  add_typed-Links f (custom ref) p h (t, e, url, k) l = rw e (add_resolved-Links f ref t p h k l)

  add_fields-Links :
      (fs : List TableField) (p : TableProps)
      → All (λ f. FieldIsLinked f.type) fs
      → PropsLinks p
      → Ends PropsLinks (λ e. ⊥) (add_fields ctx fs p)
  unfolding add_fields
  add_fields-Links [] p h l = l
  add_fields-Links (f ∷ fs) p h l =
      then_rest (add_typed ctx f f.type p) (add_typed-Links f f.type p (link_of f.type h.0) h.0 l)
        (λ q. add_fields-Links fs q h.1)
    where
      then_rest :
          (r : Result TableProps)
          → Ends PropsLinks (λ e. ⊥) r
          → ((q : TableProps) → PropsLinks q → Ends PropsLinks (λ e. ⊥) (add_fields ctx fs q))
          → Ends PropsLinks (λ e. ⊥) (r >>= add_fields ctx fs)
      then_rest (ok q) k g = g q k
      then_rest (err e) k g = k

  FieldLinks-table_entries : (p : TableProps) → PropsLinks p → FieldLinks P (table_entries ctx p)
  FieldLinks-table_entries p (a, b) =
      FieldLinks-append P (entry_unless_empty "properties" obj p.props) _ (properties p.props a) (
        FieldLinks-append P (entry_unless_empty "allOf" arr p.union_cases) _ (cases p.union_cases b)
          (FieldLinks-append P (entry_unless_empty "required" texts p.required) _
            (required p.required)
            (FieldLinks-when P ctx.explicit_additional_properties _ (tt, tt, tt))))
    where
      properties :
          (m : Fields) → FieldLinks P m → FieldLinks P (entry_unless_empty "properties" obj m)
      properties [] h = tt
      properties ((k, j) ∷ m) h = (tt, Links-obj P ((k, j) ∷ m) h, tt)

      cases : (js : List Json) → All (Links P) js → FieldLinks P (entry_unless_empty "allOf" arr js)
      cases [] h = tt
      cases (j ∷ js) h = (tt, Links-arr P (j ∷ js) h, tt)

      required : (ss : List String) → FieldLinks P (entry_unless_empty "required" texts ss)
      required [] = tt
      required (s ∷ ss) = (tt, Links-texts P (s ∷ ss), tt)

  pub add_table_properties-Links :
      (t : TableType) (js : Fields) (tagged : Bool)
      → All (λ f. FieldIsLinked f.type) t.fields
      → FieldLinks P js
      → Ends (Links P) (λ e. ⊥) (add_table_properties ctx t js tagged)
  unfolding add_table_properties
  add_table_properties-Links t js tagged h k = then_object (add_fields ctx t.fields _) (
      add_fields-Links t.fields
        (record {
          props = when tagged ((ctx.type_key, get_const_string ctx t.base.name) ∷ []);
          union_cases = [];
          required = when tagged (ctx.type_key ∷ []);
        })
        h
        (
          FieldLinks-when P tagged _ (
            IsLink-const P ctx ctx.type_key t.base.name,
            Links-get_const_string P ctx t.base.name,
            tt,
          ),
          tt,
        ))
    where
      then_object :
          (r : Result TableProps)
          → Ends PropsLinks (λ e. ⊥) r
          → Ends (Links P) (λ e. ⊥) (r >>= λ p. ok (obj (js ++ table_entries ctx p)))
      then_object (ok p) l =
          Links-obj P (js ++ table_entries ctx p)
            (FieldLinks-append P js (table_entries ctx p) k (FieldLinks-table_entries p l))
      then_object (err e) l = l
