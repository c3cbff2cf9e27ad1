-- ===== src/Codegen/Ir.antt =====
-- src/codegen/ir.hpp: the intermediate representation. The names of the syntax tree are used again
-- there; here they begin with `Ir`.
use hasten.Common.{String, ℕ, List, Option}
use hasten.Idl.Ast.{ConstantValue, AstType, MethodKind}

pub record IrAttribute : Type 0 where
  pub name : String
  pub value : Option ConstantValue

pub record IrField : Type 0 where
  pub id : ℕ  -- uint64_t
  pub name : String
  pub type : AstType
  pub default_value : Option ConstantValue
  pub attributes : List IrAttribute

pub record IrStruct : Type 0 where
  pub name : String
  pub fields : List IrField
  pub attributes : List IrAttribute

pub record IrEnumerator : Type 0 where
  pub name : String
  pub value : Option ℕ
  pub attributes : List IrAttribute

pub record IrEnum : Type 0 where
  pub name : String
  pub values : List IrEnumerator
  pub attributes : List IrAttribute

pub record IrMethod : Type 0 where
  pub name : String
  pub kind : MethodKind
  pub parameters : List IrField
  pub result_fields : List IrField
  pub result_type : Option AstType
  pub attributes : List IrAttribute

pub record IrInterface : Type 0 where
  pub name : String
  pub methods : List IrMethod
  pub attributes : List IrAttribute

pub record IrModule : Type 0 where
  pub name : String
  pub namespace_parts : List String
  pub structs : List IrStruct
  pub enums : List IrEnum
  pub interfaces : List IrInterface

pub record CompilationUnit : Type 0 where
  pub modules : List IrModule
