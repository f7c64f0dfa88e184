-- ===== src/Protocol.antt =====
-- The protocol tool, below tools/protocol/src: it reads the FlatBuffers schema of the messages and
-- writes it as JSON schema, OpenAPI and TypeScript.
pub mod Names
pub mod Dict
pub mod Ast
pub mod Types
pub mod Results
pub mod Resolver
pub mod References
pub mod Filter
pub mod Json
pub mod JsonSchema
pub mod Convert
pub mod Sorting
pub mod TypeScript
