-- ===== src/Protocol/Convert/Links.antt =====
-- The links in the schemas that tools/protocol/src/output/json-schema/output.ts writes.
use Prim.Native.String.{String}
use motis.Prelude.Int.{pos}
use motis.Prelude.{
  ℕ, ◌==◌, ltb, ◌&&◌, Bool, true, false, List, [], ◌∷◌, ◌++◌, All, str_eq, if◌then◌else◌,
  Bool-cases, inl, inr,
}
use motis.Protocol.Dict.{put}
use motis.Protocol.Json.{
  Json, text, boolean, number, array, object, Items, nil, cons, Entries, end, entry, arr, obj,
}
use motis.Protocol.Ast.{bits, is_unsigned, BasicType, bool_type, int_type, float_type, string_type}
use motis.Protocol.Types.{FieldType, basic, vector, custom}
use motis.Protocol.JsonSchema.{
  Fields, JsContext, when, get_const_string, basic_type_to_js, strict_bounds, int_format, ref_to,
  field_type_to_js,
}
use motis.Protocol.Convert.{texts}

module _ (P : String → Type 0) where
  -- A link is a text under `$ref`.
  abbrev pub IsLink : String → Json → Type 0
  IsLink key (text url) = if str_eq key "$ref" then P url else Unit
  IsLink key j = Unit

  -- All links in the value are as `P` says.
  abbrev mutual
    pub Links : Json → Type 0
    Links (text s) = Unit
    Links (boolean b) = Unit
    Links (number n) = Unit
    Links (array js) = ItemLinks js
    Links (object m) = EntryLinks m

    pub ItemLinks : Items → Type 0
    ItemLinks nil = Unit
    ItemLinks (cons j js) = Links j × ItemLinks js

    pub EntryLinks : Entries → Type 0
    EntryLinks end = Unit
    EntryLinks (entry k j m) = IsLink k j × Links j × EntryLinks m

  abbrev pub FieldLinks : Fields → Type 0
  FieldLinks [] = Unit
  FieldLinks ((k, j) ∷ m) = IsLink k j × Links j × FieldLinks m

  pub Links-obj : (m : Fields) → FieldLinks m → Links (obj m)
  Links-obj [] h = tt
  Links-obj ((k, j) ∷ m) (a, b, c) = (a, b, Links-obj m c)

  pub Links-arr : (js : List Json) → All Links js → Links (arr js)
  Links-arr [] h = tt
  Links-arr (j ∷ js) (a, b) = (a, Links-arr js b)

  pub Links-texts : (ss : List String) → Links (texts ss)
  Links-texts [] = tt
  Links-texts (s ∷ ss) = (tt, Links-texts ss)

  pub FieldLinks-append : (m n : Fields) → FieldLinks m → FieldLinks n → FieldLinks (m ++ n)
  FieldLinks-append [] n h k = k
  FieldLinks-append ((key, j) ∷ m) n (a, b, c) k = (a, b, FieldLinks-append m n c k)

  pub FieldLinks-when : (b : Bool) (m : Fields) → FieldLinks m → FieldLinks (when b m)
  FieldLinks-when true m h = h
  FieldLinks-when false m h = tt

  pub FieldLinks-put :
      (key : String) (j : Json) (m : Fields)
      → IsLink key j
      → Links j
      → FieldLinks m
      → FieldLinks (put key j m)
  FieldLinks-put key j [] a b h = (a, b, tt)
  FieldLinks-put key j ((i, k) ∷ m) a b (c, d, e) = elim (Bool-cases (str_eq i key)) [
    | inl same ↦ rw same (a, b, e)
    | inr other ↦ rw other (c, d, FieldLinks-put key j m a b e)
  ]

  pub IsLink-any : (key url : String) → P url → IsLink key (text url)
  IsLink-any key url h = elim (Bool-cases (str_eq key "$ref")) [ inl e ↦ rw e h | inr e ↦ rw e tt ]

  pub Links-get_const_string :
      (ctx : JsContext) (value : String) → Links (get_const_string ctx value)
  unfolding get_const_string
  Links-get_const_string ctx value = elim (Bool-cases ctx.const_as_enum) [
    | inl e ↦ rw e (tt, tt, (tt, (tt, tt), tt))
    | inr e ↦ rw e (tt, tt, (tt, tt, tt))
  ]

  pub FieldLinks-basic : (ctx : JsContext) (b : BasicType) → FieldLinks (basic_type_to_js ctx b)
  unfolding basic_type_to_js
  FieldLinks-basic ctx bool_type = (tt, tt, tt)
  FieldLinks-basic ctx (int_type t) = (
    tt,
    tt,
    FieldLinks-append _ _ (format (is_unsigned t) (bits t)) (
        FieldLinks-when (ctx.strict_int_types && ltb (bits t) 64)
          (strict_bounds (is_unsigned t) (bits t)) (bounds (is_unsigned t) (bits t))),
  )
    where
      bounds : (u : Bool) (b : ℕ) → FieldLinks (strict_bounds u b)
      bounds true b = (tt, tt, tt)
      bounds false b = (tt, tt, (tt, tt, tt))

      named : (b : ℕ) → FieldLinks (int_format b)
      named b = elim (Bool-cases (b == 32)) [
        | inl e ↦ rw e (tt, tt, tt)
        | inr e ↦ elim (Bool-cases (b == 64)) [
          | inl f ↦ rw (e, f) (tt, tt, tt)
          | inr f ↦ rw (e, f) tt
        ]
      ]

      format :
          (u : Bool) (b : ℕ)
          → FieldLinks (
              if u
              then ("minimum", number (pos 0)) ∷ []
              else when ctx.number_formats (int_format b))
      format true b = (tt, tt, tt)
      format false b = FieldLinks-when ctx.number_formats (int_format b) (named b)
  FieldLinks-basic ctx (float_type t) = (tt, tt, FieldLinks-when ctx.number_formats _ (tt, tt, tt))
  FieldLinks-basic ctx string_type = (tt, tt, tt)

  pub Links-ref_to :
      (ctx : JsContext) (fqtn : List String) → P (ctx.get_ref_url fqtn) → Links (ref_to ctx fqtn)
  Links-ref_to ctx fqtn h = (h, tt, tt)

  -- The type of a field links to the types that it names.
  abbrev pub FieldTypeLinks : JsContext → FieldType → Type 0
  FieldTypeLinks ctx (basic b) = Unit
  FieldTypeLinks ctx (vector t) = FieldTypeLinks ctx t
  FieldTypeLinks ctx (custom ref) = P (ctx.get_ref_url ref.resolved_fqtn)

  pub IsLink-field_type :
      (ctx : JsContext) (key : String) (t : FieldType) → IsLink key (field_type_to_js ctx t)
  unfolding field_type_to_js
  IsLink-field_type ctx key (basic b) = tt
  IsLink-field_type ctx key (vector t) = tt
  IsLink-field_type ctx key (custom ref) = tt

  pub Links-field_type :
      (ctx : JsContext) (t : FieldType) → FieldTypeLinks ctx t → Links (field_type_to_js ctx t)
  unfolding field_type_to_js
  Links-field_type ctx (basic b) h = Links-obj (basic_type_to_js ctx b) (FieldLinks-basic ctx b)
  Links-field_type ctx (vector t) h =
      Links-obj (("type", text "array") ∷ ("items", field_type_to_js ctx t) ∷ [])
        (tt, tt, (IsLink-field_type ctx "items" t, Links-field_type ctx t h, tt))
  Links-field_type ctx (custom ref) h = Links-ref_to ctx ref.resolved_fqtn h

  pub IsLink-const :
      (ctx : JsContext) (key value : String) → IsLink key (get_const_string ctx value)
  unfolding get_const_string
  IsLink-const ctx key value = elim (Bool-cases ctx.const_as_enum) [
    | inl e ↦ rw e tt
    | inr e ↦ rw e tt
  ]
