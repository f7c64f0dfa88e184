-- ===== src/Protocol/Resolver/Including.antt =====
-- `resolveFile` of tools/protocol/src/schema/resolver.ts reads the files that the root file includes,
-- directly or not, and comes to an end.
use Prim.Native.String.{String}
use motis.Prelude.{
  ℕ, ◌+◌, ◌≤◌, ◌<◌, ◌≡◌, some, refl, true, false, ◌||◌, List, [], ◌∷◌, ◌++◌, str_eq, str_eq_iff,
  if◌then◌else◌, arith, Bool-cases, inl, inr,
}
use motis.Protocol.Ast.{
  AstTopLevel, include_file, namespace, enum_decl, union_decl, table_decl, root_type,
  attribute_decl,
}
use motis.Protocol.Results.{
  Error, Result, ok, err, ◌>>=◌, Ends, file_not_found, parse_failed, already_defined,
}
use motis.Protocol.Names.{split_dots}
use motis.Protocol.Dict.{has, put}
use motis.Protocol.Types.{SchemaType}
use motis.Protocol.Resolver.{
  extract_type, Files, missing, unparsable, parsed, ResolverContext, define_type, extract_from,
  resolve_includes, contains,
}

pub contains-snoc :
    (p f : String) (fs : List String) → contains p (fs ++ f ∷ []) ≡ (contains p fs || str_eq f p)
contains-snoc p f [] = ground arith
contains-snoc p f (g ∷ fs) = ground (arith, contains-snoc p f fs)

-- How many of the paths are not among the files yet.
abbrev pub unvisited : List String → List String → ℕ
unvisited files [] = 0
unvisited files (p ∷ ps) = if contains p files then unvisited files ps else unvisited files ps + 1

abbrev pub Extends : List String → List String → Type 0
Extends files files' = (p : String) → contains p files ≡ true → contains p files' ≡ true

pub unvisited-le :
    (files files' ps : List String)
    → Extends files files'
    → unvisited files' ps ≤ unvisited files ps
unvisited-le files files' [] h = omega arith
unvisited-le files files' (p ∷ ps) h = ground (arith, h p, unvisited-le files files' ps h)

pub Extends-enter : (file : String) (files : List String) → Extends files (files ++ file ∷ [])
Extends-enter file files p h = rw (contains-snoc p file files, h) refl

pub contains_entered :
    (file : String) (files : List String) → contains file (files ++ file ∷ []) ≡ true
contains_entered file files = ground (arith, contains-snoc file file files, str_eq_iff file file)

pub unvisited-enter :
    (file : String) (files ps : List String)
    → contains file ps ≡ true
    → contains file files ≡ false
    → unvisited (files ++ file ∷ []) ps < unvisited files ps
unvisited-enter file files [] h n = absurd (no h)
  where
    no : false ≡ true → ⊥
    no e = cc
unvisited-enter file files (p ∷ ps) h n = ground (
  arith,
  str_eq_iff p file,
  str_eq_iff file p,
  contains-snoc p file files,
  unvisited-le files (files ++ file ∷ []) ps (Extends-enter file files),
  unvisited-enter file files ps,
)

-- The files that a file includes, in their order.
abbrev pub targets : Files → List AstTopLevel → List String
targets fs [] = []
targets fs (include_file path ∷ es) = fs.resolve path ∷ targets fs es
targets fs (namespace n ∷ es) = targets fs es
targets fs (enum_decl n b m vs ∷ es) = targets fs es
targets fs (union_decl n m vs ∷ es) = targets fs es
targets fs (table_decl s n m xs ∷ es) = targets fs es
targets fs (root_type n ∷ es) = targets fs es
targets fs (attribute_decl n ∷ es) = targets fs es

abbrev pub each :
    (String → ResolverContext → Result ResolverContext)
    → List String
    → ResolverContext
    → Result ResolverContext
each self [] ctx = ok ctx
each self (f ∷ fs) ctx = self f ctx >>= each self fs

pub resolve_includes-each :
    (self : String → ResolverContext → Result ResolverContext) (fs : Files) (es : List AstTopLevel)
    (ctx : ResolverContext)
    → resolve_includes self fs es ctx ≡ each self (targets fs es) ctx
unfolding resolve_includes
resolve_includes-each self fs [] ctx = refl
resolve_includes-each self fs (include_file path ∷ es) ctx =
    then_rest (self (fs.resolve path) ctx) (resolve_includes-each self fs es)
  where
    then_rest :
        (r : Result ResolverContext) {f g : ResolverContext → Result ResolverContext}
        → ((c : ResolverContext) → f c ≡ g c)
        → (r >>= f) ≡ (r >>= g)
    then_rest (ok c) h = h c
    then_rest (err e) h = refl
resolve_includes-each self fs (namespace n ∷ es) ctx = resolve_includes-each self fs es ctx
resolve_includes-each self fs (enum_decl n b m vs ∷ es) ctx = resolve_includes-each self fs es ctx
resolve_includes-each self fs (union_decl n m vs ∷ es) ctx = resolve_includes-each self fs es ctx
resolve_includes-each self fs (table_decl s n m xs ∷ es) ctx = resolve_includes-each self fs es ctx
resolve_includes-each self fs (root_type n ∷ es) ctx = resolve_includes-each self fs es ctx
resolve_includes-each self fs (attribute_decl n ∷ es) ctx = resolve_includes-each self fs es ctx

-- The files that are included from the root file, directly or not.
pub data IsIncluded (fs : Files) (root : String) : String → Type 0 where
  here : IsIncluded fs root root
  next :
      {f g : String} {ast : List AstTopLevel}
      → IsIncluded fs root f
      → fs.load f ≡ parsed ast
      → contains g (targets fs ast) ≡ true
      → IsIncluded fs root g

-- What reading the files may throw: an included file is missing or cannot be parsed, or a type is
-- defined twice.
abbrev pub FromReading : Files → String → Error → Type 0
FromReading fs root (file_not_found f) = IsIncluded fs root f × (fs.load f ≡ missing)
FromReading fs root (parse_failed f) = IsIncluded fs root f × (fs.load f ≡ unparsable)
FromReading fs root (already_defined k) = Unit
FromReading fs root _ = ⊥

-- What `extractTypes` does not touch.
abbrev pub Extracted : Files → String → ResolverContext → Result ResolverContext → Type 0
Extracted fs root ctx r =
    Ends (λ c. (c.files ≡ ctx.files) × (c.current_file ≡ ctx.current_file)) (FromReading fs root) r

define_type-Extracted :
    (fs : Files) (root key : String) (t : SchemaType) (ctx : ResolverContext)
    (rest : ResolverContext → Result ResolverContext)
    → ((c : ResolverContext) → Extracted fs root c (rest c))
    → Extracted fs root ctx (define_type key t ctx >>= rest)
unfolding define_type
define_type-Extracted fs root key t ctx rest h = elim (Bool-cases (has key ctx.types)) [
  | inl old ↦ rw old tt
  | inr new ↦ rw new (h (record ctx { types = put key t ctx.types }))
]

pub extract_from-Extracted :
    (fs : Files) (root f rel : String) (es : List AstTopLevel) (ns : List String)
    (ctx : ResolverContext)
    → Extracted fs root ctx (extract_from f rel ns es ctx)
unfolding extract_from
extract_from-Extracted fs root f rel [] ns ctx = (refl, refl)
extract_from-Extracted fs root f rel (include_file path ∷ es) ns ctx =
    extract_from-Extracted fs root f rel es ns ctx
extract_from-Extracted fs root f rel (namespace n ∷ es) ns ctx =
    extract_from-Extracted fs root f rel es (split_dots n) ctx
extract_from-Extracted fs root f rel (enum_decl n b m vs ∷ es) ns ctx =
    define_type-Extracted fs root _ _ ctx _ (extract_from-Extracted fs root f rel es ns)
extract_from-Extracted fs root f rel (union_decl n m vs ∷ es) ns ctx =
    define_type-Extracted fs root _ _ ctx _ (extract_from-Extracted fs root f rel es ns)
extract_from-Extracted fs root f rel (table_decl s n m xs ∷ es) ns ctx =
    define_type-Extracted fs root _ _ ctx _ (extract_from-Extracted fs root f rel es ns)
extract_from-Extracted fs root f rel (root_type n ∷ es) ns ctx =
    extract_from-Extracted fs root f rel es ns (record ctx { root_type = some (extract_type ns n) })
extract_from-Extracted fs root f rel (attribute_decl n ∷ es) ns ctx =
    extract_from-Extracted fs root f rel es ns ctx

-- All that the file includes is among the files.
abbrev pub IsClosed : Files → List String → String → Type 0
IsClosed fs files g =
    (ast : List AstTopLevel) → fs.load g ≡ parsed ast → Extends (targets fs ast) files

-- `files'` comes from `files` by reading included files, with all that they include.
pub record Read (fs : Files) (root : String) (files files' : List String) : Type 0 where
  pub grows : Extends files files'
  pub closed :
      (g : String) → contains g files' ≡ true → contains g files ≡ false → IsClosed fs files' g
  pub included :
      (g : String) → contains g files' ≡ true → contains g files ≡ false → IsIncluded fs root g

pub Read-refl : (fs : Files) (root : String) (files : List String) → Read fs root files files
Read-refl fs root files = record {
  grows = λ p h. h;
  closed = λ g h n. cc (h, n);
  included = λ g h n. cc (h, n);
}

pub Read-trans :
    (fs : Files) (root : String) {a b c : List String}
    → Read fs root a b
    → Read fs root b c
    → Read fs root a c
Read-trans fs root {a} {b} {c} p q = record {
  grows = λ f h. q.grows f (p.grows f h);
  closed = λ g h n ast e t i. elim (Bool-cases (contains g b)) [
    | inl old ↦ q.grows t (p.closed g old n ast e t i)
    | inr new ↦ q.closed g h new ast e t i
  ];
  included = λ g h n. elim (Bool-cases (contains g b)) [
    | inl old ↦ p.included g old n
    | inr new ↦ q.included g h new
  ];
}
