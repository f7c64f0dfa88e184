-- ===== src/Protocol/References/Schema.antt =====
-- No reference is resolved when tools/protocol/src/schema/resolver.ts has read the files.
use Prim.Native.String.{String}
use motis.Prelude.{
  ℕ, zero, suc, ◌≡◌, refl, subst, true, List, [], ◌∷◌, map, some, all, arith, Bool-cases, inl, inr,
}
use motis.Protocol.Names.{split_dots, join_dots}
use motis.Protocol.Dict.{has, put}
use motis.Protocol.Ast
use motis.Protocol.Ast.{
  AstFieldType, AstEnumVal, AstField, AstTopLevel, include_file, namespace, enum_decl, union_decl,
  table_decl, root_type, attribute_decl,
}
use motis.Protocol.Types.{SchemaType, enum_type, union_type}
use motis.Protocol.Results.{Error, Result, ok, err, ◌>>=◌, Ends, unknown_type}
use motis.Protocol.Resolver.{
  Files, ResolverContext, extract_type, extract_field_type, extract_value, extract_field,
  define_type, extract_from, extract_types, resolve_includes, contains, enter, resolve_file,
  get_relative_fbs_file, namespaced, base_of,
}
use motis.Protocol.Resolver.Including.{targets, each, resolve_includes-each}
use motis.Protocol.Resolver.Reading.{Loaded-cases}
use motis.Protocol.References.{Types, start}
use motis.Protocol.References.Marks.{members, members_of, fields, values}
use motis.Protocol.References.Resolving.{fresh_field, are_fresh}
use motis.Protocol.References.Complete.{IsFresh}

all_fresh-put :
    (key : String) (t : SchemaType) (types : Types)
    → are_fresh (members t) ≡ true
    → all are_fresh (members_of types) ≡ true
    → all are_fresh (members_of (put key t types)) ≡ true
all_fresh-put key t [] h k = rw h refl
all_fresh-put key t ((j, u) ∷ types) h k = ground (arith, all_fresh-put key t types h)

fresh_values :
    (ns : List String) (vs : List AstEnumVal)
    → are_fresh (values (map (extract_value ns) vs)) ≡ true
fresh_values ns [] = refl
fresh_values ns (v ∷ vs) = fresh_values ns vs

fresh_field-extract :
    (ns : List String) (t : AstFieldType) → fresh_field (extract_field_type ns t) ≡ true
fresh_field-extract ns (Ast.basic b) = refl
fresh_field-extract ns (Ast.vector t) = fresh_field-extract ns t
fresh_field-extract ns (Ast.custom id) = refl

fresh_fields :
    (ns : List String) (fs : List AstField) → are_fresh (fields (map (extract_field ns) fs)) ≡ true
fresh_fields ns [] = refl
fresh_fields ns (f ∷ fs) = rw (fresh_field-extract ns f.type) (fresh_fields ns fs)

abbrev NotUnknown : Error → Type 0
NotUnknown (unknown_type name file) = ⊥
NotUnknown _ = Unit

-- A result that is still fresh, if there is one; `extractTypes` also leaves the current file.
abbrev pub StaysFresh : String → Result ResolverContext → Type 0
StaysFresh file r = Ends (λ c. IsFresh c × (c.current_file ≡ file)) NotUnknown r

module _ (file rel : String) where
  define_type-StaysFresh :
      (key : String) (t : SchemaType) (ctx : ResolverContext)
      (rest : ResolverContext → Result ResolverContext)
      → are_fresh (members t) ≡ true
      → IsFresh ctx
      → ((c : ResolverContext)
          → IsFresh c
          → c.current_file ≡ ctx.current_file
          → StaysFresh ctx.current_file (rest c))
      → StaysFresh ctx.current_file (define_type key t ctx >>= rest)
  unfolding define_type
  define_type-StaysFresh key t ctx rest h f k = elim (Bool-cases (has key ctx.types)) [
    | inl old ↦ rw old tt
    | inr new ↦ rw new (
        k (record ctx { types = put key t ctx.types })
          (record { types = all_fresh-put key t ctx.types h f.types; root = f.root }) refl)
  ]

  extract_from-StaysFresh :
      (es : List AstTopLevel) (ns : List String) (ctx : ResolverContext) (current : String)
      → IsFresh ctx
      → ctx.current_file ≡ current
      → StaysFresh current (extract_from file rel ns es ctx)
  unfolding extract_from
  extract_from-StaysFresh [] ns ctx current f e = (f, e)
  extract_from-StaysFresh (include_file path ∷ es) ns ctx current f e =
      extract_from-StaysFresh es ns ctx current f e
  extract_from-StaysFresh (namespace n ∷ es) ns ctx current f e =
      extract_from-StaysFresh es (split_dots n) ctx current f e
  extract_from-StaysFresh (enum_decl n b m vs ∷ es) ns ctx current f e =
      subst (λ x. StaysFresh x (extract_from file rel ns (enum_decl n b m vs ∷ es) ctx)) e
        (define_type-StaysFresh (join_dots (namespaced ns n))
          (enum_type (base_of file rel ns n m) vs) ctx (extract_from file rel ns es) refl f
          (λ c g same. extract_from-StaysFresh es ns c ctx.current_file g same))
  extract_from-StaysFresh (union_decl n m vs ∷ es) ns ctx current f e =
      subst (λ x. StaysFresh x (extract_from file rel ns (union_decl n m vs ∷ es) ctx)) e
        (define_type-StaysFresh (join_dots (namespaced ns n))
          (union_type (base_of file rel ns n m) (map (extract_value ns) vs)) ctx
          (extract_from file rel ns es) (fresh_values ns vs) f
          (λ c g same. extract_from-StaysFresh es ns c ctx.current_file g same))
  extract_from-StaysFresh (table_decl s n m xs ∷ es) ns ctx current f e =
      subst (λ x. StaysFresh x (extract_from file rel ns (table_decl s n m xs ∷ es) ctx)) e
        (define_type-StaysFresh _ _ ctx (extract_from file rel ns es) (fresh_fields ns xs) f
          (λ c g same. extract_from-StaysFresh es ns c ctx.current_file g same))
  extract_from-StaysFresh (root_type n ∷ es) ns ctx current f e =
      extract_from-StaysFresh es ns (record ctx { root_type = some (extract_type ns n) }) current
        (record { types = f.types; root = refl }) e
  extract_from-StaysFresh (attribute_decl n ∷ es) ns ctx current f e =
      extract_from-StaysFresh es ns ctx current f e

abbrev Fresh : Result ResolverContext → Type 0
Fresh r = Ends IsFresh NotUnknown r

each-Fresh :
    (self : String → ResolverContext → Result ResolverContext)
    → ((f : String) (c : ResolverContext) → IsFresh c → Fresh (self f c))
    → (fs : List String) (ctx : ResolverContext) → IsFresh ctx
    → Fresh (each self fs ctx)
each-Fresh self h [] ctx f = f
each-Fresh self h (g ∷ gs) ctx f =
    then_rest (self g ctx) (each self gs) (h g ctx f) (each-Fresh self h gs)
  where
    then_rest :
        (r : Result ResolverContext) (k : ResolverContext → Result ResolverContext)
        → Fresh r
        → ((c : ResolverContext) → IsFresh c → Fresh (k c))
        → Fresh (r >>= k)
    then_rest (ok c) k f g = g c f
    then_rest (err e) k f g = f

parsed-StaysFresh :
    (fs : Files) (self : String → ResolverContext → Result ResolverContext) (file : String)
    (ast : List AstTopLevel) (ctx : ResolverContext)
    → ((f : String) (c : ResolverContext) → IsFresh c → Fresh (self f c))
    → IsFresh ctx
    → StaysFresh file (resolve_includes self fs ast (enter file ctx) >>= extract_types fs file ast)
unfolding extract_types
parsed-StaysFresh fs self file ast ctx h f =
    rw (resolve_includes-each self fs ast (enter file ctx)) (
      then_extract (each self (targets fs ast) (enter file ctx)) (
        each-Fresh self h (targets fs ast) (enter file ctx)
          (record { types = f.types; root = f.root })))
  where
    then_extract :
        (r : Result ResolverContext) → Fresh r → StaysFresh file (r >>= extract_types fs file ast)
    then_extract (ok c) g =
        extract_from-StaysFresh file (get_relative_fbs_file fs file) ast []
          (record c { current_file = file }) file (record { types = g.types; root = g.root }) refl
    then_extract (err e) g = g

resolve_file-Fresh :
    (fs : Files) (fuel : ℕ) (file : String) (ctx : ResolverContext)
    → IsFresh ctx
    → Fresh (resolve_file fs fuel file ctx)
unfolding resolve_file
resolve_file-Fresh fs zero file ctx f = tt
resolve_file-Fresh fs (suc fuel) file ctx f = elim (Bool-cases (contains file ctx.files)) [
  | inl old ↦ rw old f
  | inr new ↦ elim (Loaded-cases (fs.load file)) [
    | inl lost ↦ rw (new, lost, resolve_file) tt
    | inr (inl bad) ↦ rw (new, bad, resolve_file) tt
    | inr (inr (ast, load)) ↦
        rw (new, load, resolve_file)
          (only_fresh
            (resolve_includes (resolve_file fs fuel) fs ast (enter file ctx)
              >>= extract_types fs file ast)
            (parsed-StaysFresh fs (resolve_file fs fuel) file ast ctx (resolve_file-Fresh fs fuel)
              f))
  ]
]
  where
    only_fresh : (r : Result ResolverContext) → StaysFresh file r → Fresh r
    only_fresh (ok c) h = h.0
    only_fresh (err e) h = h

-- For the root file the file that was extracted last is the root file itself.
pub root-StaysFresh :
    (fs : Files) (fuel : ℕ) (root : String)
    → StaysFresh root (resolve_file fs fuel root (start root))
unfolding resolve_file
root-StaysFresh fs zero root = tt
root-StaysFresh fs (suc fuel) root = elim (Loaded-cases (fs.load root)) [
  | inl lost ↦ rw (lost, resolve_file) tt
  | inr (inl bad) ↦ rw (bad, resolve_file) tt
  | inr (inr (ast, load)) ↦
      rw (load, resolve_file)
        (parsed-StaysFresh fs (resolve_file fs fuel) root ast (start root)
          (resolve_file-Fresh fs fuel) (record { types = refl; root = refl }))
]
