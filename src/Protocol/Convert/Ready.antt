-- ===== src/Protocol/Convert/Ready.antt =====
-- Schemas that tools/protocol/src/output/json-schema/output.ts can convert.
use Prim.Native.String.{String, ◌++◌ as append}
use text.Mathlib.TextLemmas.{append_assoc}
use motis.Prelude.{
  ◌≡◌, ◌≢◌, refl, sym, ap, ◌∙◌, subst, Bool, true, false, ◌&&◌, List, [], ◌∷◌, Option, none, some,
  all, str_eq, Bool-cases, inl, inr, arith,
}
use motis.Protocol.Names.{split_dots, join_dots, extend_last}
use motis.Protocol.Names.Joined.{IsName, split_dots-IsName}
use motis.Protocol.Dict.{get, has}
use motis.Protocol.Types.{SchemaType, enum_type, union_type, table_type}
use motis.Protocol.References.{Types}
use motis.Protocol.References.Marks.{Members, no_members, values, fields, members, members_of}
use motis.Protocol.References.Resolving.{are_reached}
use motis.Protocol.References.Complete.{AllReached}
use motis.Protocol.JsonSchema.{JsContext}
use motis.Protocol.Convert.{key_of_value}

join_dots-extend_last :
    (suffix p : String) (ps : List String)
    → join_dots (extend_last suffix (p ∷ ps)) ≡ append (join_dots (p ∷ ps)) suffix
unfolding join_dots
join_dots-extend_last suffix p [] = refl
join_dots-extend_last suffix p (q ∷ []) =
    sym (append_assoc p (append "." q) suffix ∙ ap (append p) (append_assoc "." q suffix))
join_dots-extend_last suffix p (q ∷ r ∷ ps) =
    ap (λ s. append p (append "." s)) (join_dots-extend_last suffix q (r ∷ ps))
    ∙ sym (
        append_assoc p (append "." (join_dots (q ∷ r ∷ ps))) suffix
        ∙ ap (append p) (append_assoc "." (join_dots (q ∷ r ∷ ps)) suffix))

pub join_dots-extend_last_of_ne :
    (suffix : String) (ps : List String)
    → ps ≢ []
    → join_dots (extend_last suffix ps) ≡ append (join_dots ps) suffix
join_dots-extend_last_of_ne suffix [] h = absurd (h refl)
join_dots-extend_last_of_ne suffix (p ∷ ps) h = join_dots-extend_last suffix p ps

pub split_dots_ne : (s : String) → split_dots s ≢ []
split_dots_ne s e = not_nil (split_dots s) (split_dots-IsName s) e
  where
    not_nil : (ps : List String) → IsName ps → ps ≢ []
    not_nil [] n e = elim n [ ]
    not_nil (p ∷ ps) n e = cc

abbrev pub is_table : Option SchemaType → Bool
is_table none = false
is_table (some (enum_type b vs)) = false
is_table (some (union_type b vs)) = false
is_table (some (table_type t)) = true

abbrev pub unions_of_tables : Types → Members → Bool
unions_of_tables types no_members = true
unions_of_tables types (values vs) = all (λ v. is_table (get (key_of_value v) types)) vs
unions_of_tables types (fields fs) = true

-- The schema is resolved, the filter lets every type through, and the names are the default ones. A
-- union has tables as its members.
pub record IsReady (ctx : JsContext) (suffix : String) : Type 0 where
  pub resolved : AllReached ctx.types
  pub includes : (key : String) → ctx.includes key ≡ true
  pub tagged : (fqtn : List String) → ctx.get_tagged_type fqtn ≡ extend_last suffix fqtn
  pub named : has "" ctx.types ≡ false
  pub tables : all (unions_of_tables ctx.types) (members_of ctx.types) ≡ true

pub and_left : (a b : Bool) → (a && b) ≡ true → a ≡ true
and_left a b h = ground arith

pub and_right : (a b : Bool) → (a && b) ≡ true → b ≡ true
and_right a b h = ground arith

pub are_reached_of_get :
    (all_types types : Types) (key : String) {t : SchemaType}
    → all (are_reached all_types) (members_of types) ≡ true
    → get key types ≡ some t
    → are_reached all_types (members t) ≡ true
are_reached_of_get all_types [] key h e = cc
are_reached_of_get all_types ((j, u) ∷ types) key {t} h e = elim (Bool-cases (str_eq j key)) [
  | inl same ↦
      let u_is_t : u ≡ t = some_head (rw same at e) in
      subst (λ x. are_reached all_types (members x) ≡ true) u_is_t (and_left _ _ h)
  | inr other ↦ are_reached_of_get all_types types key (and_right _ _ h) (rw other at e)
]
  where
    some_head : {a b : SchemaType} → some a ≡ some b → a ≡ b
    some_head h = cc
