-- ===== src/Idl/Ast.antt =====
-- src/idl/include/idl/ast.hpp: the syntax tree. A name is a text; a signed number of 64 bits and a
-- double are kept as their bits. The library's tag of a node is the offset of the node's range in
-- the text, if the parser has tagged it.
use hasten.Common.{String, ℕ, List, [], ◌∷◌, Bool, Option}
use Prim.Native.String.{◌++◌}

abbrev pub PositionTagged : Type 0
PositionTagged = Option ℕ

-- Each text behind a separator.
unfoldable pub each_after : String → List String → String
each_after separator [] = ""
each_after separator (part ∷ parts) = separator ++ (part ++ each_after separator parts)

-- The loop `if (i) out += separator; out += parts[i]`.
unfoldable pub joined : String → List String → String
unfolding each_after
joined separator [] = ""
joined separator (part ∷ parts) = part ++ each_after separator parts

pub record QualifiedIdentifier : Type 0 where
  pub parts : List String

unfoldable pub to_string : QualifiedIdentifier → String
unfolding joined
to_string name = joined "." name.parts

pub data ConstantValue : Type 0 where
  null : ConstantValue
  boolean : Bool → ConstantValue
  int64 double : ℕ → ConstantValue
  text : String → ConstantValue
  identifier : QualifiedIdentifier → ConstantValue
  bytes : List ℕ → ConstantValue

pub data PrimitiveKind : Type 0 where
  bool i8 i16 i32 i64 u8 u16 u32 u64 f32 f64 string bytes : PrimitiveKind

pub record UserType : Type 0 where
  pub name : QualifiedIdentifier
  pub position : PositionTagged

-- `Type`, with `Vector`, `Map` and `Optional`.
pub data AstType : Type 0 where
  primitive : PrimitiveKind → AstType
  user_type : UserType → AstType
  vector_of : AstType → AstType
  map_of : AstType → AstType → AstType
  optional_of : AstType → AstType

pub record Attribute : Type 0 where
  pub name : String
  pub value : Option ConstantValue

pub record Field : Type 0 where
  pub id : ℕ  -- uint64_t
  pub type : AstType
  pub name : String
  pub default_value : Option ConstantValue
  pub attrs : List Attribute
  pub position : PositionTagged

pub record Parameter : Type 0 where
  pub id : ℕ  -- uint64_t
  pub type : AstType
  pub name : String
  pub default_value : Option ConstantValue
  pub attrs : List Attribute
  pub position : PositionTagged

-- `Result`
pub data MethodResult : Type 0 where
  result_type : AstType → MethodResult
  result_fields : List Field → MethodResult

pub record ConstantDeclaration : Type 0 where
  pub type : AstType
  pub name : String
  pub value : ConstantValue

pub record Enumerator : Type 0 where
  pub name : String
  pub value : Option ℕ
  pub attrs : List Attribute
  pub position : PositionTagged

pub record Enum : Type 0 where
  pub name : String
  pub items : List Enumerator
  pub position : PositionTagged

pub record Struct : Type 0 where
  pub name : String
  pub fields : List Field
  pub position : PositionTagged

pub data MethodKind : Type 0 where
  rpc oneway stream notify : MethodKind

pub record Method : Type 0 where
  pub kind : MethodKind
  pub name : String
  pub params : List Parameter
  pub result : Option MethodResult
  pub attrs : List Attribute
  pub position : PositionTagged

pub record Interface : Type 0 where
  pub name : String
  pub methods : List Method
  pub attrs : List Attribute
  pub position : PositionTagged

pub data Declaration : Type 0 where
  constant_declaration : ConstantDeclaration → Declaration
  enum_declaration : Enum → Declaration
  struct_declaration : Struct → Declaration
  interface_declaration : Interface → Declaration

pub record Import : Type 0 where
  pub path : List ℕ

pub record Module : Type 0 where
  pub name : QualifiedIdentifier
  pub imports : List Import
  pub decls : List Declaration
  pub position : PositionTagged
