-- ===== src/Protocol/TypeScript/Grouped.antt =====
-- The files of tools/protocol/src/output/typescript/output.ts, and what each of them imports.
use Prim.Native.String.{String}
use motis.Prelude.{
  ◌≡◌, refl, Bool, true, List, [], ◌∷◌, ◌++◌, Option, none, some, all, str_eq, str_eq_iff, arith,
  Bool-cases, inl, inr, subst, sym, ◌∙◌,
}
use mathlib.Core.Option
use motis.Protocol.Names.{join_dots}
use motis.Protocol.Dict.{get, has, put, change, get-put, get-change}
use motis.Protocol.Types.{TypeBase, SchemaType}
use motis.Protocol.Results.{Ends}
use motis.Protocol.Resolver.{contains}
use motis.Protocol.References.{Types}
use motis.Protocol.TypeScript.{
  TsContext, TsFile, base, push_type, add_to_file, collect_type, add_type, add_types, collect_types,
  collect_includes,
}
use motis.Protocol.TypeScript.Imports.{contains-add_name, is_imported, refs_of_types}
use motis.Protocol.TypeScript.Imports.Collected.{collect_includes-imports}

module _ (K : String → Bool) where
  abbrev pub knows : Option TsFile → Bool
  knows none = true
  knows (some file) = all K file.types

  -- All types that are collected are as `K` says.
  pub record IsKnown (ctx : TsContext) : Type 0 where
    pub types : (key : String) → contains key ctx.types ≡ true → K key ≡ true
    pub files : (ns : String) → knows (get ns ctx.files) ≡ true

  all-snoc :
      (keys : List String) (key : String)
      → all K keys ≡ true
      → K key ≡ true
      → all K (keys ++ key ∷ []) ≡ true
  all-snoc [] key h k = rw k refl
  all-snoc (j ∷ keys) key h k = ground (arith, all-snoc keys key)

  knows-put :
      (ns at : String) (file : TsFile) (files : List (String × TsFile))
      → all K file.types ≡ true
      → knows (get ns files) ≡ true
      → knows (get ns (put at file files)) ≡ true
  knows-put ns at file files h k = elim (Bool-cases (str_eq at ns)) [
    | inl same ↦ rw (get-put at ns file files, same) h
    | inr other ↦ rw (get-put at ns file files, other) k
  ]

  knows-push :
      (key : String) (file : Option TsFile)
      → K key ≡ true
      → knows file ≡ true
      → knows (Option.map (push_type key) file) ≡ true
  knows-push key none h k = refl
  knows-push key (some file) h k = all-snoc file.types key k h

  knows-change :
      (ns at key : String) (files : List (String × TsFile))
      → K key ≡ true
      → knows (get ns files) ≡ true
      → knows (get ns (change at (push_type key) files)) ≡ true
  knows-change ns at key files h k = elim (Bool-cases (str_eq at ns)) [
    | inl same ↦
        rw (get-change at ns (push_type key) files, same) (knows-push key (get ns files) h k)
    | inr other ↦ rw (get-change at ns (push_type key) files, other) k
  ]

  knows-add_to_file :
      (ctx : TsContext) (key : String) (b : TypeBase) (ns : String) (old : Option TsFile)
      → K key ≡ true
      → knows (get ns ctx.files) ≡ true
      → knows (get ns (add_to_file ctx key b old)) ≡ true
  knows-add_to_file ctx key b ns none h k =
      knows-put ns (join_dots b.ns) _ ctx.files (ground (arith, h)) k
  knows-add_to_file ctx key b ns (some file) h k =
      knows-change ns (join_dots b.ns) key ctx.files h k

  collect_type-IsKnown :
      (key : String) (t : SchemaType) (ctx : TsContext)
      → K key ≡ true
      → IsKnown ctx
      → IsKnown (collect_type key t ctx)
  collect_type-IsKnown key t ctx h known = record {
    types = λ j c. elim (Bool-cases (contains j ctx.types)) [
      | inl old ↦ known.types j old
      | inr new ↦
          subst (λ x. K x ≡ true)
            ((str_eq_iff key j).0 (ground (arith, contains-add_name j key ctx.types, c, new))) h
    ];
    files = λ ns. knows-add_to_file ctx key (base t) ns _ h (known.files ns);
  }

  add_type-IsKnown :
      (key : String) (t : SchemaType) (ctx : TsContext)
      → K key ≡ true
      → IsKnown ctx
      → IsKnown (add_type key t ctx)
  unfolding add_type
  add_type-IsKnown key t ctx h known = elim (Bool-cases (ctx.includes key)) [
    | inl e ↦ rw e (collect_type-IsKnown key t ctx h known)
    | inr e ↦ rw e known
  ]

  add_types-IsKnown :
      (types : Types) (ctx : TsContext)
      → ((key : String) → has key types ≡ true → K key ≡ true)
      → IsKnown ctx
      → IsKnown (add_types types ctx)
  unfolding add_types
  add_types-IsKnown [] ctx h known = known
  add_types-IsKnown ((key, t) ∷ types) ctx h known =
      add_types-IsKnown types (add_type key t ctx) (λ j k. h j (ground (arith, k)))
        (add_type-IsKnown key t ctx (h key (ground (arith, str_eq_iff key key))) known)

add_type-schema :
    (key : String) (t : SchemaType) (ctx : TsContext) → (add_type key t ctx).schema ≡ ctx.schema
unfolding add_type
add_type-schema key t ctx = elim (Bool-cases (ctx.includes key)) [
  | inl e ↦ rw e refl
  | inr e ↦ rw e refl
]

pub add_types-schema : (types : Types) (ctx : TsContext) → (add_types types ctx).schema ≡ ctx.schema
unfolding add_types
add_types-schema [] ctx = refl
add_types-schema ((key, t) ∷ types) ctx =
    add_types-schema types (add_type key t ctx) ∙ add_type-schema key t ctx

collect_types-IsKnown :
    (schema : Types) (includes : String → Bool) (filename : List String → String)
    → IsKnown
        (λ key. has key (collect_types schema includes filename).schema)
        (collect_types schema includes filename)
unfolding collect_types
collect_types-IsKnown schema includes filename =
    subst (λ s. IsKnown (λ key. has key s) (collect_types schema includes filename))
      (sym (add_types-schema schema _))
      (add_types-IsKnown (λ key. has key schema) schema _ (λ key h. h)
        (record { types = λ key h. cc; files = λ ns. refl }))

-- For each file that the first loop makes, whatever the filter lets through, the imports are collected
-- without an error, and each type that is written to another file is imported where it is used, a union
-- with the type of its tags.
pub collect_types-imports :
    (schema : Types) (includes : String → Bool) (filename : List String → String) (ns : String)
    {file : TsFile}
    → get ns (collect_types schema includes filename).files ≡ some file
    → Ends
        (λ m.
          all
            (is_imported (collect_types schema includes filename) file m)
            (refs_of_types (collect_types schema includes filename).schema file.types)
          ≡ true)
        (λ e. ⊥)
        (collect_includes (collect_types schema includes filename) file)
collect_types-imports schema includes filename ns {file} at =
    let ctx = collect_types schema includes filename in
    let known = collect_types-IsKnown schema includes filename in
    collect_includes-imports ctx file known.types
      (subst (λ f. knows (λ key. has key ctx.schema) f ≡ true) at (known.files ns))
