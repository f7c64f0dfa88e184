-- ===== src/Protocol/Convert/Adds.antt =====
-- What a step of output/json-schema/output.ts adds to the schemas, and that its links are right.
-- tools/protocol/src/output/json-schema/output.ts sets.
use Prim.Native.String.{String, ◌++◌ as append}
use motis.Prelude.{
  ◌≡◌, refl, Bool, true, false, not, ◌&&◌, ◌||◌, List, [], ◌∷◌, ◌++◌, All, if◌then◌else◌, str_eq,
  str_eq_iff, Bool-cases, inl, inr, arith,
}
use motis.Protocol.Names.{split_dots, join_dots}
use motis.Protocol.Dict.{has, put, has-put}
use motis.Protocol.Types.{UnionValue, TableType, SchemaType, enum_type, union_type, table_type}
use motis.Protocol.Results.{Result, ok, err, ◌>>=◌, Ends}
use motis.Protocol.Json.{Json}
use motis.Protocol.JsonSchema.{Fields, JsContext, JsonSchemas, when}
use motis.Protocol.Convert.{set_schema}
use motis.Protocol.Convert.Links.{Links}
use motis.Protocol.Convert.Tables.{FieldIsLinked}

-- The keys that a type sets.
abbrev pub untagged_key : JsContext → String → TableType → List String
untagged_key ctx key t = when (not ctx.types_in_unions || t.used_in_table) (key ∷ [])

abbrev pub tagged_key : JsContext → String → TableType → List String
tagged_key ctx key t =
    when (ctx.types_in_unions && t.used_in_union)
      (join_dots (ctx.get_tagged_type (split_dots key)) ∷ [])

abbrev pub keys_of : JsContext → String → SchemaType → List String
keys_of ctx key (enum_type b vs) = key ∷ []
keys_of ctx key (union_type b vs) =
    if ctx.types_in_unions then key ∷ [] else key ∷ append key "Type" ∷ []
keys_of ctx key (table_type t) = untagged_key ctx key t ++ tagged_key ctx key t

abbrev pub HasAll : List String → JsonSchemas → Type 0
HasAll ks s = All (λ k. has k s.json_schema ≡ true) ks

All-grow :
    (ks : List String) (s s' : JsonSchemas)
    → ((k : String) → has k s.json_schema ≡ true → has k s'.json_schema ≡ true)
    → HasAll ks s
    → HasAll ks s'
All-grow [] s s' g h = tt
All-grow (k ∷ ks) s s' g h = (g k h.0, All-grow ks s s' g h.1)

HasAll-append :
    (ks ls : List String) (s : JsonSchemas) → HasAll ks s → HasAll ls s → HasAll (ks ++ ls) s
HasAll-append [] ls s h k = k
HasAll-append (x ∷ ks) ls s h k = (h.0, HasAll-append ks ls s h.1 k)

module _ (P : String → Type 0) (ctx : JsContext) where
  abbrev pub ValueIsLinked : UnionValue → Type 0
  ValueIsLinked v =
      (ctx.types_in_unions ≡ true
        → P (ctx.get_ref_url (ctx.get_tagged_type v.type_ref.resolved_fqtn)))
      × (ctx.types_in_unions ≡ false → P (ctx.get_ref_url v.type_ref.resolved_fqtn))

  abbrev pub TypeIsLinked : SchemaType → Type 0
  TypeIsLinked (enum_type b vs) = Unit
  TypeIsLinked (union_type b vs) = All ValueIsLinked vs
  TypeIsLinked (table_type t) = All (λ f. FieldIsLinked P ctx f.type) t.fields

  abbrev pub MapLinks : Fields → Type 0
  MapLinks [] = Unit
  MapLinks ((k, j) ∷ m) = Links P j × MapLinks m

  -- After a step: the links are right, nothing is lost, and the keys are there.
  pub record Adds (ks : List String) (s s' : JsonSchemas) : Type 0 where
    pub links : MapLinks s'.json_schema
    pub grows : (k : String) → has k s.json_schema ≡ true → has k s'.json_schema ≡ true
    pub there : HasAll ks s'

  MapLinks-put :
      (key : String) (j : Json) (m : Fields) → Links P j → MapLinks m → MapLinks (put key j m)
  MapLinks-put key j [] h l = (h, tt)
  MapLinks-put key j ((i, k) ∷ m) h (a, b) = elim (Bool-cases (str_eq i key)) [
    | inl e ↦ rw e (h, b)
    | inr e ↦ rw e (a, MapLinks-put key j m h b)
  ]

  has-put_self : (key : String) (j : Json) (m : Fields) → has key (put key j m) ≡ true
  has-put_self key j m = ground (arith, has-put key key j m, str_eq_iff key key)

  has-put_other :
      (key k : String) (j : Json) (m : Fields) → has k m ≡ true → has k (put key j m) ≡ true
  has-put_other key k j m h = ground (arith, has-put key k j m)

  pub set_schema-Adds :
      (key : String) (j : Json) (s : JsonSchemas)
      → Links P j
      → MapLinks s.json_schema
      → Adds (key ∷ []) s (set_schema key j s)
  set_schema-Adds key j s h l = record {
    links = MapLinks-put key j s.json_schema h l;
    grows = λ k. has-put_other key k j s.json_schema;
    there = (has-put_self key j s.json_schema, tt);
  }

  pub Adds-trans :
      {ks ls : List String} {a b c : JsonSchemas} → Adds ks a b → Adds ls b c → Adds (ks ++ ls) a c
  Adds-trans {ks} {ls} {b} {c} p q = record {
    links = q.links;
    grows = λ k h. q.grows k (p.grows k h);
    there = HasAll-append ks ls c (All-grow ks b c q.grows p.there) q.there;
  }

  pub if-Adds :
      (b : Bool) (ks ls : List String) (s x y : JsonSchemas)
      → (b ≡ true → Adds ks s x)
      → (b ≡ false → Adds ls s y)
      → Adds (if b then ks else ls) s (if b then x else y)
  if-Adds true ks ls s x y h k = h refl
  if-Adds false ks ls s x y h k = k refl

  Adds-nothing : (s : JsonSchemas) → MapLinks s.json_schema → Adds [] s s
  Adds-nothing s l = record { links = l; grows = λ k h. h; there = tt }

  pub if-Ends :
      (b : Bool) (ks : List String) (s : JsonSchemas) (r : Result JsonSchemas)
      → Ends (Adds ks s) (λ e. ⊥) r
      → MapLinks s.json_schema
      → Ends (Adds (when b ks) s) (λ e. ⊥) (if b then r else ok s)
  if-Ends true ks s r h l = h
  if-Ends false ks s r h l = Adds-nothing s l

  pub Ends-Adds :
      (ks ls : List String) (s : JsonSchemas) (r : Result JsonSchemas)
      (f : JsonSchemas → Result JsonSchemas)
      → Ends (Adds ks s) (λ e. ⊥) r
      → ((s' : JsonSchemas) → MapLinks s'.json_schema → Ends (Adds ls s') (λ e. ⊥) (f s'))
      → Ends (Adds (ks ++ ls) s) (λ e. ⊥) (r >>= f)
  Ends-Adds ks ls s (ok s') f h k = further (f s') (k s' h.links)
    where
      further :
          (r : Result JsonSchemas)
          → Ends (Adds ls s') (λ e. ⊥) r
          → Ends (Adds (ks ++ ls) s) (λ e. ⊥) r
      further (ok s'') g = Adds-trans h g
      further (err e) g = g
  Ends-Adds ks ls s (err e) f h k = h
