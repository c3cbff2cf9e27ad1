-- ===== src/Frontend/Semantic.antt =====
-- src/frontend/semantic: the indices of modules and declarations that the passes of the validator
-- share, and how a type is resolved and validated.
pub mod Passes
mod Reports
mod Names
mod Index
mod Checks
mod Agree
pub mod Verdict
pub mod Run
pub mod Order
mod Examples
pub mod Types
pub mod Validator
use Prim.Native.String.{◌++◌}
use text.Mathlib.Text.{◌==◌ as ◌is◌}
use hasten.Common.{
  String, List, [], ◌∷◌, length, Bool, true, false, not, Option, none, some, ◌==◌, if◌then◌else◌,
}
use hasten.Idl.Ast.{
  PositionTagged, UserType, AstType, primitive, user_type, vector_of, map_of, optional_of,
  to_string,
}
use hasten.Frontend.Program.{
  SourceFile, Diagnostic, Message, Usage, error, report, locate, unknown_type, nested_optional,
  bad_map_key, vector_element, map_key, map_value, inner_optional, in_optional,
}

pub data DeclKind : Type 0 where
  struct_kind enum_kind interface_kind : DeclKind

pub record DeclInfo : Type 0 where
  pub kind : DeclKind
  pub file : SourceFile

-- The maps `ModuleIndex` and `DeclarationIndex`, in the order of insertion, and the sink.
pub record Context : Type 0 where
  pub module_index : List (String × SourceFile)
  pub declaration_index : List (String × DeclInfo)
  pub diagnostics : List Diagnostic

-- `find` of a map keyed by texts.
unfoldable pub find {ℓ} : {V : Type ℓ} → String → List (String × V) → Option V
find key [] = none
find key ((k, v) ∷ entries) = if k is key then some v else find key entries

unfoldable pub report_error :
    SourceFile → PositionTagged → Message → List Diagnostic → List Diagnostic
report_error file node message sink = report error (locate node file) message sink

unfoldable pub qualified_name : String → String → String
qualified_name module_name decl_name =
    if module_name is "" then decl_name else module_name ++ ("." ++ decl_name)

or_else : Option DeclInfo → Option DeclInfo → Option DeclInfo
or_else (some info) other = some info
or_else none other = other

abbrev pub is_enum_kind : DeclKind → Bool
is_enum_kind enum_kind = true
is_enum_kind _ = false

-- `info && info->kind != DeclKind::Enum`
abbrev pub is_no_enum : Option DeclInfo → Bool
is_no_enum none = false
is_no_enum (some info) = not (is_enum_kind info.kind)

abbrev pub is_optional : AstType → Bool
is_optional (optional_of inner) = true
is_optional _ = false

module _ (declarations : List (String × DeclInfo)) (module_name : String) where
  -- What `resolve_user_type` finds: the name as it stands, or a single part within the module.
  unfoldable pub lookup_type : UserType → Option DeclInfo
  unfolding or_else
  lookup_type user = or_else (find (to_string user.name) declarations) (
      if length user.name.parts == 1
      then find (qualified_name module_name (to_string user.name)) declarations
      else none)

  module _ (file : SourceFile) where
    -- The error of `resolve_user_type`; what it returns is `lookup_type`.
    unfoldable pub resolve_user_type : UserType → Usage → List Diagnostic → List Diagnostic
    resolve_user_type user usage sink = elim (lookup_type user) [
      | none ↦ report_error file user.position (unknown_type (to_string user.name) usage) sink
      | some info ↦ sink
    ]

    module _ (anchor : PositionTagged) where
      unfoldable pub validate_map_key : AstType → Usage → List Diagnostic → List Diagnostic
      validate_map_key (primitive kind) usage sink = sink
      validate_map_key (user_type user) usage sink =
          let resolved = resolve_user_type user (map_key usage) sink in
          if is_no_enum (lookup_type user)
          then report_error file anchor (bad_map_key usage) resolved
          else resolved
      validate_map_key _ usage sink = report_error file anchor (bad_map_key usage) sink

      unfoldable pub validate : AstType → Usage → List Diagnostic → List Diagnostic
      validate (primitive kind) usage sink = sink
      validate (user_type user) usage sink = resolve_user_type user usage sink
      validate (vector_of element) usage sink = validate element (vector_element usage) sink
      validate (map_of key value) usage sink =
          validate value (map_value usage) (validate_map_key key usage sink)
      validate (optional_of inner) usage sink =
          let nested =
            validate inner (inner_optional usage)
              (report_error file anchor (nested_optional usage) sink) in
          let plain = validate inner (in_optional usage) sink in
          if is_optional inner then nested else plain
