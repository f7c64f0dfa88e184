-- ===== src/Tests/ProtocolRuns.antt =====
-- Runs of tools/protocol/src: the two schema files, their references, a filter, the JSON schemas, and the
-- TypeScript files.
use Prim.Native.String.{String}
use motis.Prelude.{◌^◌, ◌-◌, ◌≡◌, ◌↔◌, refl, true, false, [], ◌∷◌, some, arith}
use motis.Prelude.Int.{negsuc}
use motis.Protocol.Results.{ok, Ends}
use motis.Protocol.Ast.{int_type, int32, bits, is_unsigned}
use motis.Protocol.Types.{SchemaTypes}
use motis.Protocol.Resolver.{
  missing, contains, resolve_file, resolve_includes, extract_types, extract_from, define_type,
  get_relative_fbs_file,
}
use motis.Protocol.Names.{join_dots, split_dots}
use motis.Protocol.Resolver.Including.{IsIncluded, FromReading}
use motis.Protocol.Resolver.Reading.{resolve_file-reads}
use motis.Protocol.References.{
  resolve_type, start, resolve_types, resolve_schema_types, resolve_entries, resolve_entry,
  resolve_fields, resolve_field_type, resolve_and_mark, resolve_prefix, resolve_values,
  resolve_root,
}
use motis.Protocol.References.Innermost.{IsInnermost, IsUnknown, resolve_type-IsInnermost}
use motis.Protocol.References.Complete.{IsResolved}
use motis.Prelude.{codes, not, all}
use motis.Protocol.Filter.{
  split_parts, parse_parts, parse_part, remainder, parse_type_pattern, test, run,
}
use motis.Protocol.Filter.Parts.{parts, has_double_star, parse_type_pattern-parts}
use motis.Protocol.JsonSchema.{JsonSchemas, basic_type_to_js}
use motis.Protocol.JsonSchema.Bounds.{Accepts, IsValue, basic_type_to_js-range}
use motis.Protocol.Convert.{get_json_schema_types}
use motis.Protocol.Convert.Adds.{MapLinks}
use motis.Protocol.Convert.Ready.{IsReady}
use motis.Protocol.Convert.Closed.{LeadsTo, get_json_schema_types-closed}
use motis.Protocol.Sorting.{compare_fqtns, parts_of, is_negative, is_positive}
use motis.Protocol.Sorting.Lexicographic.{parts_lt, compare_fqtns-lexicographic}
use motis.Protocol.References.Whole.{IsThrown, resolve_schema_types-IsResolved}
use motis.Protocol.Dict.{get}
use motis.Protocol.TypeScript.{TsFile, collect_types, collect_includes}
use motis.Protocol.TypeScript.Imports.{refs_of_types}
use motis.Protocol.TypeScript.Written.{is_imported_in, collect_types-written}
use motis.Tests.SchemaFiles.{fs, paths, ref, message, resolved, pieces, js_context, every, net_path}

only_paths : (f : String) → contains f paths ≡ false → fs.load f ≡ missing
only_paths f h = ground arith

resolve_file-reads_example :
    Ends
      (λ ctx. (f : String) → (contains f ctx.files ≡ true) ↔ IsIncluded fs "net.fbs" f)
      (FromReading fs "net.fbs")
      (resolve_file fs 3 "net.fbs" (start "net.fbs"))
resolve_file-reads_example = resolve_file-reads fs "net.fbs" paths only_paths 3 (omega arith)

resolve_schema_types-IsResolved_example :
    Ends
      (λ (s : SchemaTypes). IsResolved s.types s.root_type)
      (IsThrown fs "net.fbs")
      (resolve_schema_types fs 3 "net.fbs")
resolve_schema_types-IsResolved_example =
    resolve_schema_types-IsResolved fs "net.fbs" paths only_paths 3 (omega arith)

both_files :
    resolve_schema_types fs 3 "net.fbs" ≡ ok (record { types = resolved; root_type = some message })
unfolding resolve_schema_types resolve_file resolve_includes extract_types extract_from define_type
    get_relative_fbs_file join_dots split_dots resolve_types resolve_entries resolve_entry
    resolve_fields resolve_field_type resolve_and_mark resolve_type resolve_prefix resolve_values
    resolve_root
both_files = refl

resolve_type-IsInnermost_example :
    Ends
      (λ r. IsInnermost resolved ("motis" ∷ "net" ∷ []) "base.Point" 2 r.resolved_fqtn)
      (IsUnknown resolved "net.fbs" ("motis" ∷ "net" ∷ []) "base.Point" 2)
      (resolve_type resolved "net.fbs" (ref "base.Point" []))
resolve_type-IsInnermost_example =
    resolve_type-IsInnermost resolved "net.fbs" (ref "base.Point" []) refl

parsed_pattern : parse_type_pattern (codes "m.n*") ≡ some pieces
unfolding parse_type_pattern split_parts parse_parts parse_part remainder
parsed_pattern = refl

matched : test pieces (codes "m.net") ≡ true
unfolding test run
matched = refl

single : all (λ p. not (has_double_star p)) (split_parts (codes "m.n*")) ≡ true
unfolding split_parts
single = refl

parse_type_pattern-parts_example : parts (codes "m.net") ≡ parts (codes "m.n*")
parse_type_pattern-parts_example =
    parse_type_pattern-parts (codes "m.n*") (codes "m.net") single parsed_pattern matched

basic_type_to_js-range_example :
    Accepts (basic_type_to_js js_context (int_type int32)) (negsuc 6)
    ↔ IsValue (is_unsigned int32) (2 ^ (bits int32 - 1)) (negsuc 6)
basic_type_to_js-range_example = basic_type_to_js-range js_context int32 (negsuc 6) refl refl

is_ready : IsReady js_context "T"
unfolding join_dots
is_ready = record {
  resolved = refl;
  includes = λ key. refl;
  tagged = λ fqtn. refl;
  named = refl;
  tables = refl;
}

get_json_schema_types-closed_example :
    Ends
      (λ (s : JsonSchemas). MapLinks (LeadsTo js_context s) js_context s.json_schema)
      (λ e. ⊥)
      (get_json_schema_types js_context)
get_json_schema_types-closed_example = get_json_schema_types-closed js_context "T" is_ready

compare_fqtns-lexicographic_example :
    (is_negative (compare_fqtns "motis.Zoo" "motis.a")
      ≡ parts_lt (parts_of "motis.Zoo") (parts_of "motis.a"))
    × (is_positive (compare_fqtns "motis.Zoo" "motis.a")
        ≡ parts_lt (parts_of "motis.a") (parts_of "motis.Zoo"))
compare_fqtns-lexicographic_example = compare_fqtns-lexicographic "motis.Zoo" "motis.a"

collect_types-written_example :
    let ctx = collect_types resolved every net_path in
    (file : TsFile) × (get "motis.net" ctx.files ≡ some file)
    × (contains "motis.net.Content" file.types ≡ true)
    × Ends
        (λ m.
          all (is_imported_in resolved every "motis.net" m) (refs_of_types resolved file.types)
          ≡ true)
        (λ e. ⊥)
        (collect_includes ctx file)
unfolding join_dots
collect_types-written_example =
    collect_types-written resolved every net_path "motis.net.Content" refl refl
