-- ===== src/Lib.antt =====
-- motis: the scripts of the web client, below ui/web/js, and the protocol tool, tools/protocol/src.
--
-- The client draws a map with the trains that run (ui/web/js/railviz). Requests go to the server by
-- api.js; main.js asks for the trains of the map's section or for the trips of a selected journey, and
-- connectionmgr.js for the trips and walks of a search result. model.js turns a response into trains
-- that know their polylines; trains.js and render.js draw them, at a position that is computed anew for
-- each frame; path_base.js, path_extra.js, path_detail.js and path_connections.js draw lines; markers.js
-- and gbfs.js add symbols; map.js moves two maps together.
--
-- The protocol tool reads the schema files of the messages between client and server, from a root file
-- on, and writes descriptions of their types. schema/resolver.ts reads the files that are included,
-- collects the types and resolves the references; filter chooses the types of an output;
-- output/json-schema turns them into JSON schemas, and output/typescript into TypeScript files.
--
-- Which file models which part (functions keep their names, in another spelling):
--   Model          ui/web/js/railviz/model.js. Geometry: preprocessPolyline. Train: the class and its
--                  constructor. Position: updatePosition and what it calls. Preprocess, Walks.
--   Api            ui/web/js/railviz/api.js: the requests, the address, the choice of the callback
--   Loading        setLoading of ui/web/js/railviz/main.js
--   ConnectionManager  ui/web/js/railviz/connectionmgr.js. Ids: cIdCombine. Walks: the grouping of
--                  walks. State, Requests, Trips: the script's variables and functions. Events: the
--                  callbacks, and a step for each event of the page and of the browser; its
--                  children are about what is shown, counted and waited for.
--   Connections    ui/web/js/railviz/path_connections.js: Colors, Features, Highlight, Picking
--   Trains         ui/web/js/railviz/trains.js: Colors, Buffers, Positions, State
--   Render         ui/web/js/railviz/render.js
--   Layers         ui/web/js/railviz/path_base.js and path_extra.js
--   Detail         ui/web/js/railviz/path_detail.js: Walks, Styles, Data
--   Main           ui/web/js/railviz/main.js: State, Views, Requests, and Events as a step function
--   Gbfs, Markers  ui/web/js/railviz/gbfs.js and markers.js
--   MapSync        syncMaps of ui/web/js/map.js
--   Protocol       tools/protocol/src. Ast, Types: fbs/ast.ts, fbs/basic_types.ts and schema/types.ts.
--                  Resolver: resolveFile and extractTypes of schema/resolver.ts; References: resolveTypes
--                  and resolveSchemaTypes of that file. Filter: filter. JsonSchema and Convert:
--                  output/json-schema, util/required.ts; Json: the values that it makes. TypeScript:
--                  output/typescript. Sorting: util/sort.ts. Names, Dict, Results: the operations on
--                  qualified names and on Map that these files use, and what a function throws.
--   External       what the scripts call of other projects
--   Prelude        lists, integers and sorting; Tests: concrete inputs
--
-- How the code is modelled:
--   * A script's variables are a record, and each of its functions takes the state to the next one.
--     Where an object is shared and changed in place, the state holds it once, or the changed object
--     is a result; a polyline of a response is named by its index.
--   * Option is null or undefined, or the TypeError of a function that reads a field of undefined, as
--     a comment says at each definition. What a function had changed before a TypeError is left open.
--   * Numbers are exact. Coordinates and lengths are integers of some small unit (`Math.sqrt` rounds
--     down to it), positions and progresses are fractions of them, and NaN is a case of its own: it
--     comes of 0 / 0, and of the length of a polyline without coordinates.
--     Times are integers. The rounding of floating point is not modelled.
--   * A loop is a recursion over the list; the search for a polyline or a line recurs on the number
--     of those that are left, which is the loop's bound, so no fuel runs out.
--   * Timers, answers and user actions are events of a step function, in any order; an answer comes
--     only for a call that is under way, once.
--   * An error that the protocol tool throws is a value of Error, without its wording. A Map is the list
--     of its entries in the order of insertion. A type that is changed in place is changed in the map;
--     the resolver holds each reference in one place only.
--   * The fuel of resolveFile is the depth to which includes may be nested. A file that is being read is
--     in the set of files already, so more fuel than there are files is enough, also where files
--     include one another.
--   * A text is the list of its character codes where the order or a regular expression looks at the
--     characters. The codes are those of Unicode, where `<` of JavaScript compares units of 16 bits:
--     these agree on the characters below 2 ^ 16, and names have no others.
--   * The console's output, the look of layers and markers, and the calls of WebGL are left out, and
--     so are the scripts that consist of them. Not modelled either: the tooltip of
--     ui/web/js/railviz/main.js, the bootstrap in ui/web/js/main.js and the map styles. Of the protocol
--     tool these are left out: what reads the options of an output and writes its files; writeType of
--     output/typescript/output.ts; output/openapi, output/markdown, doc and main.ts, which work on
--     documents of a YAML library; and fbs/parser, which is made of a parser library's combinators.
--
-- Parameters, in External.antt: `decode` of ui/web/external_lib/polyline.js, `fromLngLat` of mapbox-gl
-- and `deepEqual` of ui/web/external_lib/deep-equal.js are arbitrary functions; no theorem assumes
-- anything of them. The file system, the parser and the module path are the record Files of
-- Protocol/Resolver.antt and the file names of Protocol/TypeScript.antt; the theorems assume of them
-- only that finitely many files exist. The platform's URL gives JsContext the parts of the base address.
pub mod Prelude
pub mod Model
pub mod External
pub mod Loading
pub mod Api
pub mod ConnectionManager
pub mod Trains
pub mod Connections
pub mod Render
pub mod Layers
pub mod Detail
pub mod Main
pub mod Gbfs
pub mod Markers
pub mod MapSync
pub mod Protocol
mod Tests
