-- ===== src/Protocol/Convert/Linked.antt =====
-- What the types of a resolved schema link to, in
-- tools/protocol/src/output/json-schema/output.ts.
use Prim.Native.String.{String, ◌++◌ as append}
use motis.Prelude.{
  ◌≡◌, ◌≢◌, sym, ap, ◌∙◌, subst, Bool, true, false, not, ◌&&◌, ◌||◌, List, [], ◌∷◌, ◌++◌, some, All,
  if◌then◌else◌, Option-cases, inl, inr, arith,
}
use motis.Protocol.Names.{split_dots, join_dots, extend_last}
use motis.Protocol.Names.Joined.{join_dots-split_dots}
use motis.Protocol.Dict.{get, has_of_get}
use motis.Protocol.Types.{
  TypeRef, UnionValue, FieldType, basic, vector, custom, TableField, SchemaType, enum_type,
  union_type, table_type,
}
use motis.Protocol.References.{key_of}
use motis.Protocol.References.Marks.{
  seen_in_table, seen_in_union, holds, reaches, values, fields, members,
}
use motis.Protocol.References.Resolving.{reached_field, are_reached}
use motis.Protocol.JsonSchema.{JsContext, when, get_union_tag_ref_url}
use motis.Protocol.Convert.Links.{FieldTypeLinks}
use motis.Protocol.Convert.Tables.{ResolvedLinks, FieldIsLinked}
use motis.Protocol.Convert.Adds.{untagged_key, keys_of, ValueIsLinked, TypeIsLinked}
use motis.Protocol.Convert.Ready.{
  join_dots-extend_last_of_ne, split_dots_ne, is_table, unions_of_tables, IsReady, and_left,
  and_right, are_reached_of_get,
}

-- The keys that the conversion has set are as `H` says, and so the links to them are as `P` says.
module _ (P H : String → Type 0) (ctx : JsContext) (suffix : String) (ready : IsReady ctx suffix)
    (link : (fqtn : List String) → H (join_dots fqtn) → P (ctx.get_ref_url fqtn))
    (keys : (key : String) (t : SchemaType)
      → get key ctx.types ≡ some t
      → All H (keys_of ctx key t)) where
  found :
      (seen : SchemaType → Bool) (ref : TypeRef)
      → reaches seen ctx.types ref ≡ true
      → (t : SchemaType) × (get (key_of ref) ctx.types ≡ some t) × (seen t ≡ true)
  found seen ref h = elim (Option-cases (get (key_of ref) ctx.types)) [
    | inl none_there ↦ absurd (no (ap (holds seen) (sym none_there) ∙ h))
    | inr (t, e) ↦ (t, e, ap (holds seen) (sym e) ∙ h)
  ]
    where
      no : false ≡ true → ⊥
      no e = cc

  named_ne :
      (ref : TypeRef) {t : SchemaType}
      → get (key_of ref) ctx.types ≡ some t
      → ref.resolved_fqtn ≢ []
  unfolding join_dots
  named_ne ref {t} e empty = no (
      sym ready.named
      ∙ has_of_get "" ctx.types {v = t} (ap (λ ps. get (join_dots ps) ctx.types) (sym empty) ∙ e))
    where
      no : false ≡ true → ⊥
      no h = cc

  first_of_append :
      (a b : List String) (b' : Bool) (key : String)
      → b' ≡ true
      → All H (when b' (key ∷ []) ++ b)
      → H key
  first_of_append a b true key e h = h.0
  first_of_append a b false key e h = cc

  untagged_there :
      (key : String) (t : SchemaType)
      → (not ctx.types_in_unions || seen_in_table t) ≡ true
      → All H (keys_of ctx key t)
      → H key
  untagged_there key (enum_type b vs) seen h = h.0
  untagged_there key (union_type b vs) seen h = in_either ctx.types_in_unions h
    where
      in_either : (b : Bool) → All H (if b then key ∷ [] else key ∷ append key "Type" ∷ []) → H key
      in_either true k = k.0
      in_either false k = k.0
  untagged_there key (table_type t) seen h =
      first_of_append [] _ (not ctx.types_in_unions || t.used_in_table) key seen h

  or_right : (a b : Bool) → b ≡ true → (a || b) ≡ true
  or_right a b h = ground arith

  table_link :
      (ref : TypeRef)
      → reaches seen_in_table ctx.types ref ≡ true
      → P (ctx.get_ref_url ref.resolved_fqtn)
  table_link ref h =
      let (t, e, seen) = found seen_in_table ref h in
      link ref.resolved_fqtn
        (untagged_there (key_of ref) t (or_right _ _ seen) (keys (key_of ref) t e))

  field_links : (t : FieldType) → reached_field ctx.types t ≡ true → FieldTypeLinks P ctx t
  field_links (basic b) h = tt
  field_links (vector t) h = field_links t h
  field_links (custom ref) h = table_link ref h

  untagged_value :
      (ref : TypeRef)
      → ctx.types_in_unions ≡ false
      → reaches seen_in_union ctx.types ref ≡ true
      → P (ctx.get_ref_url ref.resolved_fqtn)
  untagged_value ref e h =
      let (t, at, seen) = found seen_in_union ref h in
      link ref.resolved_fqtn
        (untagged_there (key_of ref) t (or_left _ _ e) (keys (key_of ref) t at))
    where
      or_left : (a b : Bool) → a ≡ false → (not a || b) ≡ true
      or_left a b k = ground arith

  untagged_values :
      (vs : List UnionValue)
      → ctx.types_in_unions ≡ false
      → are_reached ctx.types (values vs) ≡ true
      → All (λ v. P (ctx.get_ref_url v.type_ref.resolved_fqtn)) vs
  untagged_values [] e h = tt
  untagged_values (v ∷ vs) e h =
      (untagged_value v.type_ref e (and_left _ _ h), untagged_values vs e (and_right _ _ h))

  resolved_links :
      (ref : TypeRef) (t : SchemaType)
      → get (key_of ref) ctx.types ≡ some t
      → ctx.types_in_unions ≡ false
      → ResolvedLinks P ctx ref t
  unfolding get_union_tag_ref_url
  resolved_links ref (enum_type b vs) at e = tt
  resolved_links ref (table_type t) at e = tt
  resolved_links ref (union_type b vs) at e = (
    link (extend_last "Type" ref.resolved_fqtn) (
        subst H (sym (join_dots-extend_last_of_ne "Type" ref.resolved_fqtn (named_ne ref at)))
          (second ctx.types_in_unions e (keys (key_of ref) (union_type b vs) at))),
    untagged_values vs e (are_reached_of_get ctx.types ctx.types (key_of ref) ready.resolved at),
  )
    where
      second :
          (b : Bool)
          → b ≡ false
          → All H (if b then key_of ref ∷ [] else key_of ref ∷ append (key_of ref) "Type" ∷ [])
          → H (append (key_of ref) "Type")
      second true f k = cc
      second false f k = k.1.0

  field_linked : (t : FieldType) → reached_field ctx.types t ≡ true → FieldIsLinked P ctx t
  field_linked (basic b) h = tt
  field_linked (vector t) h = field_links t h
  field_linked (custom ref) h =
      let (t, e, seen) = found seen_in_table ref h in
      (t, e, table_link ref h, resolved_links ref t e)

  tagged_there :
      (key : String) (t : SchemaType)
      → ctx.types_in_unions ≡ true
      → is_table (some t) ≡ true
      → seen_in_union t ≡ true
      → All H (keys_of ctx key t)
      → H (join_dots (ctx.get_tagged_type (split_dots key)))
  tagged_there key (enum_type b vs) e is seen h = cc
  tagged_there key (union_type b vs) e is seen h = cc
  tagged_there key (table_type t) e is seen h =
      last_of (untagged_key ctx key t) (ctx.types_in_unions && t.used_in_union) (both _ _ e seen) h
    where
      both : (a b : Bool) → a ≡ true → b ≡ true → (a && b) ≡ true
      both a b p q = ground arith

      last_of :
          (ks : List String) (b : Bool)
          → b ≡ true
          → All H (ks ++ when b (join_dots (ctx.get_tagged_type (split_dots key)) ∷ []))
          → H (join_dots (ctx.get_tagged_type (split_dots key)))
      last_of [] true f k = k.0
      last_of [] false f k = cc
      last_of (x ∷ ks) b f k = last_of ks b f k.1

  tagged_value :
      (ref : TypeRef)
      → ctx.types_in_unions ≡ true
      → is_table (get (key_of ref) ctx.types) ≡ true
      → reaches seen_in_union ctx.types ref ≡ true
      → P (ctx.get_ref_url (ctx.get_tagged_type ref.resolved_fqtn))
  tagged_value ref e is h =
      let (t, at, seen) = found seen_in_union ref h in
      let key = key_of ref in
      let same : join_dots (ctx.get_tagged_type (split_dots key))
          ≡ join_dots (ctx.get_tagged_type ref.resolved_fqtn) =
        ap join_dots (ready.tagged (split_dots key))
        ∙ join_dots-extend_last_of_ne suffix (split_dots key) (split_dots_ne key)
        ∙ ap (λ k. append k suffix) (join_dots-split_dots key)
        ∙ sym (join_dots-extend_last_of_ne suffix ref.resolved_fqtn (named_ne ref at))
        ∙ ap join_dots (sym (ready.tagged ref.resolved_fqtn)) in
      link (ctx.get_tagged_type ref.resolved_fqtn)
        (subst H same (tagged_there key t e (ap is_table (sym at) ∙ is) seen (keys key t at)))

  pub type_linked :
      (m : SchemaType)
      → are_reached ctx.types (members m) ≡ true
      → unions_of_tables ctx.types (members m) ≡ true
      → TypeIsLinked P ctx m
  type_linked (enum_type b vs) h k = tt
  type_linked (union_type b vs) h k = each vs h k
    where
      each :
          (us : List UnionValue)
          → are_reached ctx.types (values us) ≡ true
          → unions_of_tables ctx.types (values us) ≡ true
          → All (ValueIsLinked P ctx) us
      each [] p q = tt
      each (v ∷ us) p q = (
        (
          λ e. tagged_value v.type_ref e (and_left _ _ q) (and_left _ _ p),
          λ e. untagged_value v.type_ref e (and_left _ _ p),
        ),
        each us (and_right _ _ p) (and_right _ _ q),
      )
  type_linked (table_type t) h k = each t.fields h
    where
      each :
          (fs : List TableField)
          → are_reached ctx.types (fields fs) ≡ true
          → All (λ f. FieldIsLinked P ctx f.type) fs
      each [] p = tt
      each (f ∷ fs) p = (field_linked f.type (and_left _ _ p), each fs (and_right _ _ p))
