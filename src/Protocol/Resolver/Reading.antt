-- ===== src/Protocol/Resolver/Reading.antt =====
-- `resolveFile` of tools/protocol/src/schema/resolver.ts comes to an end, and reads exactly the files
-- that are included.
use Prim.Native.String.{String}
use motis.Prelude.{
  ℕ, zero, suc, ◌<◌, ◌≡◌, ◌↔◌, ◌⊎◌, refl, sym, ap, subst, ◌∙◌, true, false, List, [], ◌∷◌, ◌++◌,
  str_eq, str_eq_iff, length, arith, Bool-cases, inl, inr,
}
use motis.Protocol.Ast.{AstTopLevel}
use motis.Protocol.Results.{Error, Result, ok, err, ◌>>=◌, Ends}
use motis.Protocol.Resolver.{
  Files, Loaded, missing, unparsable, parsed, ResolverContext, extract_types, resolve_includes,
  contains, enter, resolve_file, get_relative_fbs_file,
}
use motis.Protocol.References.{start}
use motis.Protocol.Resolver.Including.{
  contains-snoc, unvisited, Extends, unvisited-le, Extends-enter, contains_entered, unvisited-enter,
  targets, each, resolve_includes-each, FromReading, extract_from-Extracted, IsIncluded, here, next,
  Read, Read-refl, Read-trans,
}

Ends-bind {ℓ κ} :
    {A : Type ℓ} {B : Type κ} (P : A → Type 0) (P' : B → Type 0) (Q : Error → Type 0) (r : Result A)
    (f : A → Result B)
    → Ends P Q r
    → ((a : A) → P a → Ends P' Q (f a))
    → Ends P' Q (r >>= f)
Ends-bind P P' Q (ok a) f h k = k a h
Ends-bind P P' Q (err e) f h k = h

pub Ends-map {ℓ} :
    {A : Type ℓ} (P P' : A → Type 0) (Q : Error → Type 0) (r : Result A)
    → Ends P Q r
    → ((a : A) → P a → P' a)
    → Ends P' Q r
Ends-map P P' Q (ok a) h k = k a h
Ends-map P P' Q (err e) h k = h

pub Loaded-cases :
    (l : Loaded) → (l ≡ missing) ⊎ (l ≡ unparsable) ⊎ ((ast : List AstTopLevel) × (l ≡ parsed ast))
Loaded-cases missing = inl refl
Loaded-cases unparsable = inr (inl refl)
Loaded-cases (parsed ast) = inr (inr (ast, refl))

parsed_same : {l : Loaded} {a b : List AstTopLevel} → l ≡ parsed a → l ≡ parsed b → a ≡ b
parsed_same h k = cc

is_entered :
    (g file : String) (files : List String)
    → contains g (files ++ file ∷ []) ≡ true
    → contains g files ≡ false
    → file ≡ g
is_entered g file files h n = (str_eq_iff file g).0 (ground (arith, contains-snoc g file files))

module _ (fs : Files) (root : String) where
  -- What a call of `resolveFile` for `file` leaves.
  abbrev Finds : String → ResolverContext → Result ResolverContext → Type 0
  Finds file ctx r =
      Ends (λ c. Read fs root ctx.files c.files × (contains file c.files ≡ true))
        (FromReading fs root) r

  each-Read :
      (self : String → ResolverContext → Result ResolverContext) (first all : List String)
      → ((g : String) (c : ResolverContext)
          → Extends first c.files
          → contains g all ≡ true
          → Finds g c (self g c))
      → (gs : List String) (ctx : ResolverContext) → Extends first ctx.files
      → Extends gs all
      → Ends
          (λ c. Read fs root ctx.files c.files × Extends gs c.files)
          (FromReading fs root)
          (each self gs ctx)
  each-Read self first all h [] ctx e sub = (Read-refl fs root ctx.files, λ p k. cc k)
  each-Read self first all h (g ∷ gs) ctx e sub =
      Ends-bind _ _ (FromReading fs root) (self g ctx) (each self gs)
        (h g ctx e (sub g (ground (arith, str_eq_iff g g))))
        λ c (read, found).
          Ends-map _ _ (FromReading fs root) (each self gs c)
            (each-Read self first all h gs c (λ p k. read.grows p (e p k))
              (λ p k. sub p (ground arith)))
            λ d (more, visited). (
              Read-trans fs root read more,
              λ p k. elim (Bool-cases (str_eq g p)) [
                | inl same ↦
                    more.grows p
                      (subst (λ x. contains x c.files ≡ true) ((str_eq_iff g p).0 same) found)
                | inr other ↦ visited p (rw other at k)
              ],
            )

  Read-entered :
      (file : String) (ast : List AstTopLevel) (files files' : List String)
      → fs.load file ≡ parsed ast
      → IsIncluded fs root file
      → Read fs root (files ++ file ∷ []) files'
      → Extends (targets fs ast) files'
      → Read fs root files files'
  Read-entered file ast files files' load included read visited = record {
    grows = λ p h. read.grows p (Extends-enter file files p h);
    closed = λ g h n. elim (Bool-cases (contains g (files ++ file ∷ []))) [
      | inl old ↦ λ ast' e t i. visited t (
          subst (λ a. contains t (targets fs a) ≡ true)
            (parsed_same (ap fs.load (is_entered g file files old n) ∙ e) load) i)
      | inr new ↦ read.closed g h new
    ];
    included = λ g h n. elim (Bool-cases (contains g (files ++ file ∷ []))) [
      | inl old ↦ subst (IsIncluded fs root) (is_entered g file files old n) included
      | inr new ↦ read.included g h new
    ];
  }

  extract_types-Finds :
      (file : String) (ast : List AstTopLevel) (ctx c : ResolverContext)
      → fs.load file ≡ parsed ast
      → IsIncluded fs root file
      → Read fs root (ctx.files ++ file ∷ []) c.files
      → Extends (targets fs ast) c.files
      → Finds file ctx (extract_types fs file ast c)
  unfolding extract_types
  extract_types-Finds file ast ctx c load included read visited =
      Ends-map _ _ (FromReading fs root) (extract_types fs file ast c)
        (extract_from-Extracted fs root file (get_relative_fbs_file fs file) ast []
          (record c { current_file = file }))
        λ d (same, current).
          subst (λ files. Read fs root ctx.files files × (contains file files ≡ true)) (sym same)
            (
              Read-entered file ast ctx.files c.files load included read visited,
              read.grows file (contains_entered file ctx.files),
            )

  -- The rest of a call, where `self` is the function for the included files.
  parsed-Finds :
      (self : String → ResolverContext → Result ResolverContext) (file : String)
      (ast : List AstTopLevel) (ctx : ResolverContext)
      → fs.load file ≡ parsed ast
      → IsIncluded fs root file
      → ((g : String) (c : ResolverContext)
          → Extends (ctx.files ++ file ∷ []) c.files
          → contains g (targets fs ast) ≡ true
          → Finds g c (self g c))
      → Finds file ctx (resolve_includes self fs ast (enter file ctx) >>= extract_types fs file ast)
  parsed-Finds self file ast ctx load i h =
      rw (resolve_includes-each self fs ast (enter file ctx)) (
        Ends-bind
          (λ c. Read fs root (ctx.files ++ file ∷ []) c.files × Extends (targets fs ast) c.files) _
          (FromReading fs root) (each self (targets fs ast) (enter file ctx))
          (extract_types fs file ast)
          (each-Read self (ctx.files ++ file ∷ []) (targets fs ast) h (targets fs ast)
            (enter file ctx) (λ p k. k) (λ p k. k))
          λ c (read, visited). extract_types-Finds file ast ctx c load i read visited)

  module _ (paths : List String)
      (exist : (f : String) → contains f paths ≡ false → fs.load f ≡ missing) where
    is_path :
        (f : String) {ast : List AstTopLevel} → fs.load f ≡ parsed ast → contains f paths ≡ true
    is_path f load = elim (Bool-cases (contains f paths)) [
      | inl known ↦ known
      | inr unknown ↦ cc (load, exist f unknown)
    ]

    resolve_file-Finds :
        (fuel : ℕ) (file : String) (ctx : ResolverContext)
        → unvisited ctx.files paths < fuel
        → IsIncluded fs root file
        → Finds file ctx (resolve_file fs fuel file ctx)
    unfolding resolve_file
    resolve_file-Finds zero file ctx h i = absurd (omega arith)
    resolve_file-Finds (suc fuel) file ctx h i = elim (Bool-cases (contains file ctx.files)) [
      | inl old ↦ rw old (Read-refl fs root ctx.files, old)
      | inr new ↦ elim (Loaded-cases (fs.load file)) [
        | inl lost ↦ rw (new, lost, resolve_file) (i, lost)
        | inr (inl bad) ↦ rw (new, bad, resolve_file) (i, bad)
        | inr (inr (ast, load)) ↦
            let entered = ctx.files ++ file ∷ [] in
            let fewer = unvisited-enter file ctx.files paths (is_path file load) new in
            rw (new, load, resolve_file)
              (parsed-Finds (resolve_file fs fuel) file ast ctx load i λ g c e t.
                resolve_file-Finds fuel g c
                  (omega (arith, unvisited-le entered c.files paths e, fewer, h)) (next i load t))
      ]
    ]

    unvisited-nil : (ps : List String) → unvisited [] ps ≡ length ps
    unvisited-nil [] = refl
    unvisited-nil (p ∷ ps) = omega (arith, unvisited-nil ps)

    visits :
        (files : List String)
        → Read fs root [] files
        → contains root files ≡ true
        → {f : String} → IsIncluded fs root f
        → contains f files ≡ true
    visits files read found here = found
    visits files read found (next {f} {g} {ast} i load t) =
        read.closed f (visits files read found i) refl ast load g t

-- If the files that exist are among `paths`, and the fuel is more than their number: `resolveFile`
-- comes to an end, also where files include one another. Either it has read exactly the files that are
-- included from the root file, directly or not; or the error names one of these, which is missing, or
-- cannot be parsed; or the error is that of a type that is already defined.
pub resolve_file-reads :
    (fs : Files) (root : String) (paths : List String)
    → ((f : String) → contains f paths ≡ false → fs.load f ≡ missing)
    → (fuel : ℕ) → length paths < fuel
    → Ends
        (λ ctx. (f : String) → (contains f ctx.files ≡ true) ↔ IsIncluded fs root f)
        (FromReading fs root)
        (resolve_file fs fuel root (start root))
resolve_file-reads fs root paths exist fuel h =
    Ends-map _ _ (FromReading fs root) (resolve_file fs fuel root (start root))
      (resolve_file-Finds fs root paths exist fuel root (start root)
        (omega (arith, unvisited-nil fs root paths exist paths, h)) here)
      λ c (read, found).
        λ f. (λ k. read.included f k refl, visits fs root paths exist c.files read found)
