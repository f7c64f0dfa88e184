-- ===== src/Protocol/Ast.antt =====
-- The syntax tree of a schema file: tools/protocol/src/fbs/ast.ts and basic_types.ts.
use Prim.Native.String.{String}
use motis.Prelude.{ℕ, Bool, true, false, List, Option}

-- `IntTypeName`
pub data IntType : Type 0 where
  byte ubyte short ushort int uint long ulong : IntType
  int8 uint8 int16 uint16 int32 uint32 int64 uint64 : IntType

-- `INT_TYPE_PROPERTIES`
abbrev pub bits : IntType → ℕ
bits byte = 8
bits int8 = 8
bits ubyte = 8
bits uint8 = 8
bits short = 16
bits int16 = 16
bits ushort = 16
bits uint16 = 16
bits int = 32
bits int32 = 32
bits uint = 32
bits uint32 = 32
bits long = 64
bits int64 = 64
bits ulong = 64
bits uint64 = 64

abbrev pub is_unsigned : IntType → Bool
is_unsigned byte = false
is_unsigned int8 = false
is_unsigned ubyte = true
is_unsigned uint8 = true
is_unsigned short = false
is_unsigned int16 = false
is_unsigned ushort = true
is_unsigned uint16 = true
is_unsigned int = false
is_unsigned int32 = false
is_unsigned uint = true
is_unsigned uint32 = true
is_unsigned long = false
is_unsigned int64 = false
is_unsigned ulong = true
is_unsigned uint64 = true

-- `FloatTypeName`
pub data FloatType : Type 0 where
  float double float32 float64 : FloatType

-- `FLOAT_TYPE_PROPERTIES`
abbrev pub float_bits : FloatType → ℕ
float_bits float = 32
float_bits float32 = 32
float_bits double = 64
float_bits float64 = 64

pub data BasicType : Type 0 where
  bool_type : BasicType
  int_type : IntType → BasicType
  float_type : FloatType → BasicType
  string_type : BasicType

pub data AstFieldType : Type 0 where
  basic : BasicType → AstFieldType
  vector : AstFieldType → AstFieldType
  custom : String → AstFieldType

-- A literal; a number is the text that the parser has read.
pub data AstLiteral : Type 0 where
  boolean_literal : Bool → AstLiteral
  numeric_literal : String → AstLiteral
  string_literal : String → AstLiteral
  ref_literal : String → AstLiteral

pub record AstAttribute : Type 0 where
  pub id : String
  pub value : Option AstLiteral

abbrev pub AstMetadata : Type 0
AstMetadata = Option (List AstAttribute)

-- `AstEnumVal`, and `AstUnionVal`, which is the same.
pub record AstEnumVal : Type 0 where
  pub id : String
  pub value : Option AstLiteral
  pub metadata : AstMetadata

pub record AstField : Type 0 where
  pub name : String
  pub type : AstFieldType
  pub default_value : Option AstLiteral
  pub metadata : AstMetadata

pub data AstTopLevel : Type 0 where
  include_file : String → AstTopLevel
  namespace : String → AstTopLevel
  enum_decl : String → AstFieldType → AstMetadata → List AstEnumVal → AstTopLevel
  union_decl : String → AstMetadata → List AstEnumVal → AstTopLevel
  table_decl : Bool → String → AstMetadata → List AstField → AstTopLevel
  root_type : String → AstTopLevel
  attribute_decl : String → AstTopLevel
