-- ===== src/Protocol/Types.antt =====
-- The types of a schema with their references: tools/protocol/src/schema/types.ts.
use Prim.Native.String.{String}
use motis.Prelude.{Bool, List, Option}
use motis.Protocol.Ast.{BasicType, AstLiteral, AstMetadata, AstEnumVal}

-- `resolvedFqtn` is empty until the reference is resolved.
pub record TypeRef : Type 0 where
  pub input : String
  pub current_namespace : List String
  pub resolved_fqtn : List String

pub record TypeBase : Type 0 where
  pub name : String
  pub ns : List String
  pub fbs_file : String
  pub relative_fbs_file : String
  pub metadata : AstMetadata

pub record UnionValue : Type 0 where
  pub type_ref : TypeRef
  pub value : Option AstLiteral
  pub metadata : AstMetadata

pub data FieldType : Type 0 where
  basic : BasicType → FieldType
  vector : FieldType → FieldType
  custom : TypeRef → FieldType

pub record TableField : Type 0 where
  pub name : String
  pub type : FieldType
  pub default_value : Option AstLiteral
  pub metadata : AstMetadata

pub record TableType : Type 0 where
  pub base : TypeBase
  pub is_struct : Bool
  pub fields : List TableField
  pub used_in_union : Bool
  pub used_in_table : Bool

pub data SchemaType : Type 0 where
  enum_type : TypeBase → List AstEnumVal → SchemaType
  union_type : TypeBase → List UnionValue → SchemaType
  table_type : TableType → SchemaType

pub record SchemaTypes : Type 0 where
  pub types : List (String × SchemaType)
  pub root_type : Option TypeRef
