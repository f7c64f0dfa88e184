-- ===== src/Protocol/TypeScript/Named.antt =====
-- The types that tools/protocol/src/output/typescript/output.ts collects, and the names of the files.
use Prim.Native.String.{String}
use motis.Prelude.{
  ◌≡◌, refl, Bool, true, ◌||◌, List, [], ◌∷◌, Option, none, some, str_eq, str_eq_iff, arith,
  Bool-cases, inl, inr, subst, sym,
}
use mathlib.Core.Option
use motis.Protocol.Names.{join_dots}
use motis.Protocol.Dict.{get, has, put, change, get-put, get-change}
use motis.Protocol.Types.{TypeBase, SchemaType}
use motis.Protocol.Resolver.{contains}
use motis.Protocol.References.{Types}
use motis.Protocol.TypeScript.{
  TsContext, TsFile, base, push_type, add_to_file, add_type, add_types, collect_types,
}
use motis.Protocol.TypeScript.Imports.{contains-add_name}

add_type-keeps_types :
    (ctx : TsContext) (key new : String) (t : SchemaType)
    → contains key ctx.types ≡ true
    → contains key (add_type new t ctx).types ≡ true
unfolding add_type
add_type-keeps_types ctx key new t h = elim (Bool-cases (ctx.includes new)) [
  | inl e ↦ rw (e, contains-add_name key new ctx.types, h) refl
  | inr e ↦ rw e h
]

add_types-keeps_types :
    (types : Types) (ctx : TsContext) (key : String)
    → contains key ctx.types ≡ true
    → contains key (add_types types ctx).types ≡ true
unfolding add_types
add_types-keeps_types [] ctx key h = h
add_types-keeps_types ((new, t) ∷ types) ctx key h =
    add_types-keeps_types types (add_type new t ctx) key (add_type-keeps_types ctx key new t h)

add_type-collects :
    (ctx : TsContext) (key new : String) (t : SchemaType)
    → str_eq new key ≡ true
    → ctx.includes key ≡ true
    → contains key (add_type new t ctx).types ≡ true
unfolding add_type
add_type-collects ctx key new t e i =
    let included = subst (λ k. ctx.includes k ≡ true) (sym ((str_eq_iff new key).0 e)) i in
    rw (included, contains-add_name key new ctx.types, e) (or_true (contains key ctx.types))
  where
    or_true : (b : Bool) → (b || true) ≡ true
    or_true b = ground arith

pub add_type-includes :
    (ctx : TsContext) (new : String) (t : SchemaType) → (add_type new t ctx).includes ≡ ctx.includes
unfolding add_type
add_type-includes ctx new t = elim (Bool-cases (ctx.includes new)) [
  | inl e ↦ rw e refl
  | inr e ↦ rw e refl
]

add_types-collects :
    (types : Types) (ctx : TsContext) (key : String)
    → has key types ≡ true
    → ctx.includes key ≡ true
    → contains key (add_types types ctx).types ≡ true
unfolding add_types
add_types-collects [] ctx key h i = cc
add_types-collects ((new, t) ∷ types) ctx key h i = elim (Bool-cases (str_eq new key)) [
  | inl same ↦
      add_types-keeps_types types (add_type new t ctx) key (add_type-collects ctx key new t same i)
  | inr other ↦
      add_types-collects types (add_type new t ctx) key (rw other at h)
        (subst (λ f. f key ≡ true) (sym (add_type-includes ctx new t)) i)
]

pub collect_types-collects :
    (schema : Types) (includes : String → Bool) (filename : List String → String) (key : String)
    → has key schema ≡ true
    → includes key ≡ true
    → contains key (collect_types schema includes filename).types ≡ true
unfolding collect_types
collect_types-collects schema includes filename key h i = add_types-collects schema _ key h i

-- A file is found under its namespace.
abbrev IsNamed : String → Option TsFile → Type 0
IsNamed ns none = Unit
IsNamed ns (some file) = file.namespace ≡ ns

abbrev AreNamed : List (String × TsFile) → Type 0
AreNamed files = (ns : String) → IsNamed ns (get ns files)

IsNamed-push :
    (ns new : String) (file : Option TsFile)
    → IsNamed ns file
    → IsNamed ns (Option.map (push_type new) file)
IsNamed-push ns new none h = tt
IsNamed-push ns new (some file) h = h

AreNamed-put :
    (at : String) (file : TsFile) (files : List (String × TsFile))
    → file.namespace ≡ at
    → AreNamed files
    → AreNamed (put at file files)
AreNamed-put at file files e h ns = elim (Bool-cases (str_eq at ns)) [
  | inl same ↦
      rw (get-put at ns file files, same)
        (subst (λ x. file.namespace ≡ x) ((str_eq_iff at ns).0 same) e)
  | inr other ↦ rw (get-put at ns file files, other) (h ns)
]

AreNamed-change :
    (at new : String) (files : List (String × TsFile))
    → AreNamed files
    → AreNamed (change at (push_type new) files)
AreNamed-change at new files h ns = elim (Bool-cases (str_eq at ns)) [
  | inl same ↦
      rw (get-change at ns (push_type new) files, same) (IsNamed-push ns new (get ns files) (h ns))
  | inr other ↦ rw (get-change at ns (push_type new) files, other) (h ns)
]

AreNamed-add_to_file :
    (ctx : TsContext) (new : String) (b : TypeBase) (old : Option TsFile)
    → AreNamed ctx.files
    → AreNamed (add_to_file ctx new b old)
AreNamed-add_to_file ctx new b none h = AreNamed-put (join_dots b.ns) _ ctx.files refl h
AreNamed-add_to_file ctx new b (some file) h = AreNamed-change (join_dots b.ns) new ctx.files h

add_type-AreNamed :
    (ctx : TsContext) (new : String) (t : SchemaType)
    → AreNamed ctx.files
    → AreNamed (add_type new t ctx).files
unfolding add_type
add_type-AreNamed ctx new t h = elim (Bool-cases (ctx.includes new)) [
  | inl e ↦ rw e (AreNamed-add_to_file ctx new (base t) _ h)
  | inr e ↦ rw e h
]

add_types-AreNamed :
    (types : Types) (ctx : TsContext) → AreNamed ctx.files → AreNamed (add_types types ctx).files
unfolding add_types
add_types-AreNamed [] ctx h = h
add_types-AreNamed ((new, t) ∷ types) ctx h =
    add_types-AreNamed types (add_type new t ctx) (add_type-AreNamed ctx new t h)

pub collect_types-names :
    (schema : Types) (includes : String → Bool) (filename : List String → String) (ns : String)
    {file : TsFile}
    → get ns (collect_types schema includes filename).files ≡ some file
    → file.namespace ≡ ns
unfolding collect_types
collect_types-names schema includes filename ns at =
    subst (IsNamed ns) at (add_types-AreNamed schema _ (λ n. tt) ns)
