-- ===== src/Protocol/Convert/Closed.antt =====
-- The JSON schemas of tools/protocol/src/output/json-schema/output.ts link to one another only.
use Prim.Native.String.{String}
use motis.Prelude.{
  ◌≡◌, refl, subst, true, List, [], ◌∷◌, ◌++◌, some, All, all, if◌then◌else◌, str_eq, str_eq_iff,
  Bool-cases, inl, inr,
}
use motis.Protocol.Names.{join_dots}
use motis.Protocol.Dict.{get, has}
use motis.Protocol.Types.{SchemaType}
use motis.Protocol.Results.{Result, ok, err, Ends}
use motis.Protocol.References.{Types}
use motis.Protocol.References.Marks.{members_of}
use motis.Protocol.References.Resolving.{are_reached}
use motis.Protocol.JsonSchema.{JsContext, JsonSchemas}
use motis.Protocol.Convert.{convert_schema_type, convert_types, get_json_schema_types}
use motis.Protocol.Convert.Adds.{keys_of, TypeIsLinked, MapLinks, Adds, Ends-Adds}
use motis.Protocol.Convert.Schemas.{convert_schema_type-Adds}
use motis.Protocol.Convert.Ready.{unions_of_tables, IsReady, and_left, and_right}
use motis.Protocol.Convert.Linked.{type_linked}

-- The loop, for any links that the types have.
module _ (P : String → Type 0) (ctx : JsContext) where
  abbrev AllLinked : Types → Type 0
  AllLinked types = All (λ e. TypeIsLinked P ctx e.1) types

  abbrev all_keys : Types → List String
  all_keys [] = []
  all_keys ((key, t) ∷ types) = keys_of ctx key t ++ all_keys types

  convert_types-Adds :
      (types : Types) (s : JsonSchemas)
      → ((key : String) → ctx.includes key ≡ true)
      → AllLinked types
      → MapLinks P ctx s.json_schema
      → Ends (Adds P ctx (all_keys types) s) (λ e. ⊥) (convert_types ctx types s)
  unfolding convert_types
  convert_types-Adds [] s i h l = record { links = l; grows = λ k a. a; there = tt }
  convert_types-Adds ((key, t) ∷ types) s i h l =
      Ends-Adds P ctx (keys_of ctx key t) (all_keys types) s
        (if ctx.includes key then convert_schema_type ctx key t s else ok s)
        (convert_types ctx types) (rw (i key) (convert_schema_type-Adds P ctx key t s h.0 l))
        λ s' l'. convert_types-Adds types s' i h.1 l'

  all_keys_of :
      (H : String → Type 0) (types : Types) (key : String) (t : SchemaType)
      → All H (all_keys types)
      → get key types ≡ some t
      → All H (keys_of ctx key t)
  all_keys_of H [] key t h e = cc
  all_keys_of H ((j, u) ∷ types) key t h e = elim (Bool-cases (str_eq j key)) [
    | inl same ↦
        let u_is_t : u ≡ t = some_head (rw same at e) in
        subst (λ x. All H (keys_of ctx x t)) ((str_eq_iff j key).0 same)
          (subst (λ x. All H (keys_of ctx j x)) u_is_t
            (firsts H (keys_of ctx j u) (all_keys types) h))
    | inr other ↦
        all_keys_of H types key t (lasts H (keys_of ctx j u) (all_keys types) h) (rw other at e)
  ]
    where
      some_head : {a b : SchemaType} → some a ≡ some b → a ≡ b
      some_head h = cc

      firsts : (H : String → Type 0) (ks ls : List String) → All H (ks ++ ls) → All H ks
      firsts H [] ls h = tt
      firsts H (k ∷ ks) ls h = (h.0, firsts H ks ls h.1)

      lasts : (H : String → Type 0) (ks ls : List String) → All H (ks ++ ls) → All H ls
      lasts H [] ls h = h
      lasts H (k ∷ ks) ls h = lasts H ks ls h.1

abbrev no_schemas : JsonSchemas
no_schemas = record { json_schema = []; tagged_to_untagged_type = []; untagged_to_tagged_type = [] }

-- The link leads to a schema that is written.
abbrev pub LeadsTo : JsContext → JsonSchemas → String → Type 0
LeadsTo ctx s url =
    (fqtn : List String) × (url ≡ ctx.get_ref_url fqtn)
    × (has (join_dots fqtn) s.json_schema ≡ true)

all_linked :
    (P H : String → Type 0) (ctx : JsContext) (suffix : String) (ready : IsReady ctx suffix)
    → ((fqtn : List String) → H (join_dots fqtn) → P (ctx.get_ref_url fqtn))
    → ((key : String) (t : SchemaType) → get key ctx.types ≡ some t → All H (keys_of ctx key t))
    → (types : Types) → all (are_reached ctx.types) (members_of types) ≡ true
    → all (unions_of_tables ctx.types) (members_of types) ≡ true
    → AllLinked P ctx types
all_linked P H ctx suffix ready link keys [] h k = tt
all_linked P H ctx suffix ready link keys ((key, t) ∷ types) h k = (
  type_linked P H ctx suffix ready link keys t (and_left _ _ h) (and_left _ _ k),
  all_linked P H ctx suffix ready link keys types (and_right _ _ h) (and_right _ _ k),
)

-- For a schema whose references are resolved, whose unions have tables as members, and a filter that
-- lets every type through: the conversion to JSON schema does not fail, and each link in a schema that
-- it writes leads to a schema that it writes, whether the members of unions are tagged or not.
pub get_json_schema_types-closed :
    (ctx : JsContext) (suffix : String)
    → IsReady ctx suffix
    → Ends
        (λ (s : JsonSchemas). MapLinks (LeadsTo ctx s) ctx s.json_schema)
        (λ e. ⊥)
        (get_json_schema_types ctx)
unfolding get_json_schema_types
get_json_schema_types-closed ctx suffix ready =
    go (convert_types ctx ctx.types no_schemas)
      (convert_types-Adds (λ url. Unit) ctx ctx.types no_schemas ready.includes
        (all_linked (λ url. Unit) (λ k. Unit) ctx suffix ready (λ fqtn h. tt) (λ key t e. trivial _)
          ctx.types ready.resolved ready.tables)
        tt)
      (λ P linked. convert_types-Adds P ctx ctx.types no_schemas ready.includes linked tt)
  where
    trivial : (ks : List String) → All (λ k. Unit {0}) ks
    trivial [] = tt
    trivial (k ∷ ks) = (tt, trivial ks)

    go :
        (r : Result JsonSchemas)
        → Ends (Adds (λ url. Unit) ctx (all_keys (λ url. Unit) ctx ctx.types) no_schemas) (λ e. ⊥) r
        → ((P : String → Type 0)
            → AllLinked P ctx ctx.types
            → Ends (Adds P ctx (all_keys P ctx ctx.types) no_schemas) (λ e. ⊥) r)
        → Ends (λ (s : JsonSchemas). MapLinks (LeadsTo ctx s) ctx s.json_schema) (λ e. ⊥) r
    go (ok s) first again =
        (again (LeadsTo ctx s) (
          all_linked (LeadsTo ctx s) (λ k. has k s.json_schema ≡ true) ctx suffix ready
            (λ fqtn h. (fqtn, refl, h))
            (λ key t e.
              all_keys_of (λ url. Unit) ctx (λ k. has k s.json_schema ≡ true) ctx.types key t
                first.there e)
            ctx.types ready.resolved ready.tables)).links
    go (err e) first again = first
