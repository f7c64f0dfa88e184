-- ===== src/Protocol/References/Whole.antt =====
-- `resolveSchemaTypes` of tools/protocol/src/schema/resolver.ts as a whole.
use Prim.Native.String.{String}
use motis.Prelude.{ℕ, ◌<◌, ◌≡◌, ◌↔◌, sym, subst, true, false, List, length}
use motis.Protocol.Types.{SchemaTypes}
use motis.Protocol.Results.{
  Error, Result, ok, err, ◌>>=◌, Ends, unknown_type, file_not_found, parse_failed, already_defined,
  undefined_type, out_of_fuel,
}
use motis.Protocol.Resolver.{Files, missing, ResolverContext, contains, resolve_file}
use motis.Protocol.Resolver.Including.{FromReading, IsIncluded}
use motis.Protocol.Resolver.Reading.{resolve_file-reads}
use motis.Protocol.References.{resolve_types, resolve_schema_types, start}
use motis.Protocol.References.Resolving.{IsUnknownIn}
use motis.Protocol.References.Complete.{IsResolved, resolve_types-IsResolved}
use motis.Protocol.References.Schema.{StaysFresh, root-StaysFresh}

-- What `resolveSchemaTypes` may throw: what reading throws, or an unknown type.
abbrev pub IsThrown : Files → String → Error → Type 0
IsThrown fs root (unknown_type name file) = file ≡ root
IsThrown fs root e = FromReading fs root e

reading-IsThrown :
    (fs : Files) (root : String) (e : Error) → FromReading fs root e → IsThrown fs root e
reading-IsThrown fs root (file_not_found f) h = h
reading-IsThrown fs root (parse_failed f) h = h
reading-IsThrown fs root (already_defined k) h = h
reading-IsThrown fs root (unknown_type name file) h = absurd h
reading-IsThrown fs root (undefined_type k) h = h
reading-IsThrown fs root out_of_fuel h = h

-- If the files that exist are among `paths`, and the fuel is more than their number:
-- `resolveSchemaTypes` comes to an end. In the types that it returns each reference names a type of the
-- schema, and a table says that it is used in a table, or in a union, where it is. Otherwise the error
-- is that of an included file that is missing or cannot be parsed, of a type that is already defined,
-- or of an unknown type; the latter names the root file, in whatever file the reference stands.
pub resolve_schema_types-IsResolved :
    (fs : Files) (root : String) (paths : List String)
    → ((f : String) → contains f paths ≡ false → fs.load f ≡ missing)
    → (fuel : ℕ) → length paths < fuel
    → Ends
        (λ (s : SchemaTypes). IsResolved s.types s.root_type)
        (IsThrown fs root)
        (resolve_schema_types fs fuel root)
unfolding resolve_schema_types
resolve_schema_types-IsResolved fs root paths exist fuel h =
    then_types (resolve_file fs fuel root (start root)) (root-StaysFresh fs fuel root)
      (resolve_file-reads fs root paths exist fuel h)
  where
    then_schema :
        (file : String) (r : Result ResolverContext)
        → file ≡ root
        → Ends (λ (c : ResolverContext). IsResolved c.types c.root_type) (IsUnknownIn file) r
        → Ends
            (λ (s : SchemaTypes). IsResolved s.types s.root_type)
            (IsThrown fs root)
            (r >>= λ ctx. ok (record { types = ctx.types; root_type = ctx.root_type }))
    then_schema file (ok c) same h = record { members = h.members; root = h.root }
    then_schema file (err e) same (name, is) = subst (IsThrown fs root) (sym is) same

    then_types :
        (r : Result ResolverContext)
        → StaysFresh root r
        → Ends
            (λ ctx. (f : String) → (contains f ctx.files ≡ true) ↔ IsIncluded fs root f)
            (FromReading fs root)
            r
        → Ends
            (λ (s : SchemaTypes). IsResolved s.types s.root_type)
            (IsThrown fs root)
            (r >>= resolve_types >>= λ ctx.
              ok (record { types = ctx.types; root_type = ctx.root_type }))
    then_types (ok c) (f, same) k =
        then_schema c.current_file (resolve_types c) same (resolve_types-IsResolved c f)
    then_types (err e) h k = reading-IsThrown fs root e k
