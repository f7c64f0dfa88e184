-- ===== src/Protocol/TypeScript/Imports/Collected.antt =====
-- `collectIncludes` of tools/protocol/src/output/typescript/includes.ts.
use Prim.Native.String.{String}
use motis.Prelude.{
  ◌≡◌, refl, true, false, List, [], ◌∷◌, ◌++◌, Option, none, some, all, str_eq, str_eq_iff, arith,
  Bool-cases, inl, inr, subst, sym,
}
use motis.Protocol.Names.{last_part}
use motis.Protocol.Dict.{get, has, put, get-put, has-get}
use motis.Protocol.Types.{
  TypeRef, UnionValue, FieldType, basic, vector, custom, TableField, SchemaType, enum_type,
  union_type, table_type,
}
use motis.Protocol.Results.{Result, ok, err, ◌>>=◌, Ends}
use motis.Protocol.Resolver.{contains}
use motis.Protocol.References.{key_of}
use motis.Protocol.TypeScript.{
  TsContext, TsFile, TsInclude, TsIncludes, add_names, namespace_of, include_of, is_foreign,
  include_type_ref, handle_type_ref, handle_field_type, handle_values, handle_fields, handle_type,
  handle_types, collect_includes,
}
use motis.Protocol.TypeScript.Imports.{
  has_name, has_names, Grows, contains-add_names, has_names-add_names, has_names-Grows,
  refs_of_field, refs_of_values, refs_of_fields, refs_of_type, refs_of_types, is_imported,
}

handle_type_ref-own :
    (ctx : TsContext) (file : TsFile) (ref : TypeRef) (m : TsIncludes)
    → is_foreign ctx file ref ≡ false
    → handle_type_ref ctx file ref m ≡ ok m
unfolding handle_type_ref
handle_type_ref-own ctx file ref m own = rw own refl

handle_type_ref-foreign :
    (ctx : TsContext) (file : TsFile) (ref : TypeRef) (t : SchemaType) (m : TsIncludes)
    → is_foreign ctx file ref ≡ true
    → get (key_of ref) ctx.schema ≡ some t
    → handle_type_ref ctx file ref m ≡ include_type_ref ctx file ref (some t) m
unfolding handle_type_ref
handle_type_ref-foreign ctx file ref t m foreign e = rw (foreign, e) refl

module _ (ctx : TsContext) (file : TsFile)
    (known : (key : String) → contains key ctx.types ≡ true → has key ctx.schema ≡ true) where
  -- A step that imports these references and loses nothing, and does not fail.
  abbrev pub Covers : List TypeRef → TsIncludes → Result TsIncludes → Type 0
  Covers refs m r = Ends (λ m'. (all (is_imported ctx file m') refs ≡ true) × Grows m m') (λ e. ⊥) r

  is_imported-Grows :
      (m m' : TsIncludes) (ref : TypeRef)
      → Grows m m'
      → is_imported ctx file m ref ≡ true
      → is_imported ctx file m' ref ≡ true
  is_imported-Grows m m' ref g h = ground (
    arith,
    has_names-Grows m m' (namespace_of ctx file ref) (last_part ref.resolved_fqtn)
        (get (key_of ref) ctx.schema) g,
  )

  all_imported-Grows :
      (m m' : TsIncludes) (refs : List TypeRef)
      → Grows m m'
      → all (is_imported ctx file m) refs ≡ true
      → all (is_imported ctx file m') refs ≡ true
  all_imported-Grows m m' [] g h = refl
  all_imported-Grows m m' (ref ∷ refs) g h =
      ground (arith, is_imported-Grows m m' ref g, all_imported-Grows m m' refs g)

  all-append :
      (m : TsIncludes) (refs refs' : List TypeRef)
      → all (is_imported ctx file m) refs ≡ true
      → all (is_imported ctx file m) refs' ≡ true
      → all (is_imported ctx file m) (refs ++ refs') ≡ true
  all-append m [] refs' h k = k
  all-append m (ref ∷ refs) refs' h k = ground (arith, all-append m refs refs')

  Covers-none : (m : TsIncludes) → Covers [] m (ok m)
  Covers-none m = (refl, λ ns n h. h)

  Covers-bind :
      (refs refs' : List TypeRef) (m : TsIncludes) (r : Result TsIncludes)
      (f : TsIncludes → Result TsIncludes)
      → Covers refs m r
      → ((m' : TsIncludes) → Covers refs' m' (f m'))
      → Covers (refs ++ refs') m (r >>= f)
  Covers-bind refs refs' m (err e) f h k = h
  Covers-bind refs refs' m (ok m') f (done, g) k = after (f m') (k m')
    where
      after : (r : Result TsIncludes) → Covers refs' m' r → Covers (refs ++ refs') m r
      after (err e) h = h
      after (ok m'') (more, g') = (
        all-append m'' refs refs' (all_imported-Grows m' m'' refs g' done) more,
        λ ns n h. g' ns n (g ns n h),
      )

  has_name-include_of :
      (ref : TypeRef) (n : String) (i : Option TsInclude)
      → has_name n i ≡ true
      → contains n (include_of ctx file ref i).types ≡ true
  has_name-include_of ref n none h = cc
  has_name-include_of ref n (some i) h = h

  get-put_same : (ns : String) (i : TsInclude) (m : TsIncludes) → get ns (put ns i m) ≡ some i
  get-put_same ns i m = ground (arith, get-put ns ns i m, str_eq_iff ns ns)

  Grows-put :
      (ns : String) (i : TsInclude) (m : TsIncludes)
      → ((n : String) → has_name n (get ns m) ≡ true → contains n i.types ≡ true)
      → Grows m (put ns i m)
  Grows-put ns i m more k n h = elim (Bool-cases (str_eq ns k)) [
    | inl e ↦
        rw (get-put ns k i m, e)
          (more n (subst (λ x. has_name n (get x m) ≡ true) (sym ((str_eq_iff ns k).0 e)) h))
    | inr e ↦ rw (get-put ns k i m, e) h
  ]

  foreign-Covers :
      (ref : TypeRef) (t : SchemaType) (m : TsIncludes)
      → get (key_of ref) ctx.schema ≡ some t
      → Covers (ref ∷ []) m (include_type_ref ctx file ref (some t) m)
  foreign-Covers ref t m e =
      let ns = namespace_of ctx file ref in
      let name = last_part ref.resolved_fqtn in
      let before = include_of ctx file ref (get ns m) in
      let imported : has_names name (get (key_of ref) ctx.schema)
            (get ns (put ns (add_names name t before) m))
          ≡ true =
        rw (e, get-put_same ns (add_names name t before) m) (has_names-add_names name t before) in
      (
        ground (arith, imported),
        Grows-put ns (add_names name t before) m
            λ n h. contains-add_names n name t before (has_name-include_of ref n (get ns m) h),
      )

  handle_type_ref-Covers :
      (ref : TypeRef) (m : TsIncludes) → Covers (ref ∷ []) m (handle_type_ref ctx file ref m)
  handle_type_ref-Covers ref m = elim (Bool-cases (is_foreign ctx file ref)) [
    | inr own ↦
        subst (Covers (ref ∷ []) m) (sym (handle_type_ref-own ctx file ref m own))
          (ground (arith, own), λ ns n h. h)
    | inl foreign ↦
        let (t, e) =
          has-get (key_of ref) ctx.schema (known (key_of ref) (ground (arith, foreign))) in
        subst (Covers (ref ∷ []) m) (sym (handle_type_ref-foreign ctx file ref t m foreign e))
          (foreign-Covers ref t m e)
  ]

  handle_field_type-Covers :
      (t : FieldType) (m : TsIncludes) → Covers (refs_of_field t) m (handle_field_type ctx file t m)
  unfolding handle_field_type
  handle_field_type-Covers (basic b) m = Covers-none m
  handle_field_type-Covers (vector t) m = handle_field_type-Covers t m
  handle_field_type-Covers (custom ref) m = handle_type_ref-Covers ref m

  handle_values-Covers :
      (vs : List UnionValue) (m : TsIncludes)
      → Covers (refs_of_values vs) m (handle_values ctx file vs m)
  unfolding handle_values
  handle_values-Covers [] m = Covers-none m
  handle_values-Covers (v ∷ vs) m =
      Covers-bind (v.type_ref ∷ []) (refs_of_values vs) m (handle_type_ref ctx file v.type_ref m)
        (handle_values ctx file vs) (handle_type_ref-Covers v.type_ref m) (handle_values-Covers vs)

  handle_fields-Covers :
      (fs : List TableField) (m : TsIncludes)
      → Covers (refs_of_fields fs) m (handle_fields ctx file fs m)
  unfolding handle_fields
  handle_fields-Covers [] m = Covers-none m
  handle_fields-Covers (f ∷ fs) m =
      Covers-bind (refs_of_field f.type) (refs_of_fields fs) m (handle_field_type ctx file f.type m)
        (handle_fields ctx file fs) (handle_field_type-Covers f.type m) (handle_fields-Covers fs)

  handle_type-Covers :
      (key : String) (t : SchemaType) (m : TsIncludes)
      → Covers (refs_of_type (some t)) m (handle_type ctx file key (some t) m)
  handle_type-Covers key (enum_type b vs) m = Covers-none m
  handle_type-Covers key (union_type b vs) m = handle_values-Covers vs m
  handle_type-Covers key (table_type t) m = handle_fields-Covers t.fields m

  handle_types-Covers :
      (keys : List String) (m : TsIncludes)
      → all (λ key. has key ctx.schema) keys ≡ true
      → Covers (refs_of_types ctx.schema keys) m (handle_types ctx file keys m)
  unfolding handle_types
  handle_types-Covers [] m h = Covers-none m
  handle_types-Covers (key ∷ keys) m h =
      let (t, e) = has-get key ctx.schema (ground (arith, h)) in
      Covers-bind (refs_of_type (get key ctx.schema)) (refs_of_types ctx.schema keys) m
        (handle_type ctx file key (get key ctx.schema) m) (handle_types ctx file keys)
        (subst (λ x. Covers (refs_of_type x) m (handle_type ctx file key x m)) (sym e)
          (handle_type-Covers key t m))
        λ m'. handle_types-Covers keys m' (ground (arith, h))

  -- For a file of types of the schema the imports are collected without an error, and each type of
  -- another file that the types of this one refer to is imported, a union with its tags.
  pub collect_includes-imports :
      all (λ key. has key ctx.schema) file.types ≡ true
      → Ends
          (λ m. all (is_imported ctx file m) (refs_of_types ctx.schema file.types) ≡ true)
          (λ e. ⊥)
          (collect_includes ctx file)
  unfolding collect_includes
  collect_includes-imports h =
      done (handle_types ctx file file.types []) (handle_types-Covers file.types [] h)
    where
      done :
          (r : Result TsIncludes)
          → Covers (refs_of_types ctx.schema file.types) [] r
          → Ends
              (λ m. all (is_imported ctx file m) (refs_of_types ctx.schema file.types) ≡ true)
              (λ e. ⊥)
              r
      done (ok m) (a, g) = a
      done (err e) h = h
