-- ===== src/Frontend/Semantic/Examples.antt =====
-- Two files: one declares a structure and an enumeration, the other uses them and itself.
use mathlib.Core.List.Perm
use hasten.Common.{String, ℕ, ◌≡◌, ◌↔◌, refl, List, [], ◌∷◌, false, not, none, some, ◌||◌}
use hasten.Idl.Ast.{
  PrimitiveKind, AstType, primitive, user_type, vector_of, map_of, optional_of, Declaration,
  struct_declaration, enum_declaration, QualifiedIdentifier, to_string, joined, each_after,
}
use hasten.Frontend.Program.{SourceFile, field_of, has_errors, report, locate, error, bad_map_key}
use hasten.Frontend.Ids.{check_id_collection, check_id_bounds, is_seen}
use hasten.Frontend.Semantic.{
  DeclInfo, enum_kind, find, report_error, qualified_name, lookup_type, resolve_user_type,
  validate_map_key, validate,
}
use hasten.Frontend.Semantic.Passes.{
  each, module_index_pass, index_module, declaration_index_pass, index_declaration,
  register_declaration, enum_validation_pass, validate_enum, check_names, is_in,
  struct_validation_pass, validate_struct, validate_field, interface_validation_pass,
  validate_interface,
}
use hasten.Frontend.Semantic.Validator.{
  validator, run, add_pass_factory, register_default_passes, instantiate_passes, run_pass,
}
use hasten.Frontend.Semantic.Types.{WellFormed, validate-WellFormed}
use hasten.Frontend.Semantic.Run.{has_errors-run}
use hasten.Frontend.Semantic.Order.{has_errors-run_order}
use hasten.Frontend.Semantic.Verdict.{valid_program}

abbrev qualified : List String → QualifiedIdentifier
qualified parts = record { parts = parts }

abbrev named : String → AstType
named name = user_type record { name = qualified (name ∷ []); position = none }

abbrev point : AstType → Declaration
point type = struct_declaration record {
  name = "Point";
  fields =
      record {
        id = 1;
        type = type;
        name = "x";
        default_value = none;
        attrs = [];
        position = some 3;
      }
      ∷ [];
  position = some 0;
}

abbrev color : Declaration
color = enum_declaration record {
  name = "Color";
  items =
      record { name = "red"; value = none; attrs = []; position = none }
      ∷ record { name = "blue"; value = some 7; attrs = []; position = none }
      ∷ [];
  position = some 1;
}

abbrev file_of : ℕ → String → List Declaration → SourceFile
file_of path name decls = record {
  path = path ∷ [];
  content = 0x61 ∷ 0x0A ∷ 0x62 ∷ 0x63 ∷ [];
  position_cache = 0x61 ∷ 0x0A ∷ 0x62 ∷ 0x63 ∷ [];
  syntax = record { name = qualified (name ∷ []); imports = []; decls = decls; position = none };
}

abbrev sound : List SourceFile
sound =
    file_of 1 "a" (color ∷ point (map_of (named "Color") (vector_of (named "Point"))) ∷ [])
    ∷ file_of 2 "b" (point (primitive PrimitiveKind.i32) ∷ [])
    ∷ []

abbrev turned : List SourceFile
turned =
    file_of 2 "b" (point (primitive PrimitiveKind.i32) ∷ [])
    ∷ file_of 1 "a" (color ∷ point (map_of (named "Color") (vector_of (named "Point"))) ∷ [])
    ∷ []

abbrev declarations : List (String × DeclInfo)
declarations = ("a.Color", record { kind = enum_kind; file = file_of 1 "a" (color ∷ []) }) ∷ []

validate-WellFormed_example :
    (has_errors (
        validate declarations "a"
          (file_of 1 "a" [])
          (some 3)
          (map_of (named "Color") (optional_of (named "Color")))
          (field_of "x" "Point")
          [])
      ≡ false)
    ↔ WellFormed declarations "a" (map_of (named "Color") (optional_of (named "Color")))
validate-WellFormed_example =
    validate-WellFormed declarations "a" (file_of 1 "a" []) (some 3) (field_of "x" "Point")
      (map_of (named "Color") (optional_of (named "Color")))

has_errors-run_example :
    has_errors (run validator record { files = sound } [])
    ≡ (has_errors [] || not (valid_program sound))
has_errors-run_example = has_errors-run record { files = sound } []

has_errors-run_order_example :
    has_errors (run validator record { files = sound } [])
    ≡ has_errors (run validator record { files = turned } [])
has_errors-run_order_example = has_errors-run_order sound turned [] (Perm.swap _ _ [])

sound_passes : run validator record { files = sound } [] ≡ []
unfolding run register_default_passes add_pass_factory instantiate_passes run_pass each
    module_index_pass index_module declaration_index_pass index_declaration register_declaration
    find qualified_name to_string joined each_after enum_validation_pass validate_enum check_names
    is_in struct_validation_pass validate_struct validate_field interface_validation_pass
    validate_interface check_id_collection check_id_bounds is_seen validate validate_map_key
    resolve_user_type lookup_type
sound_passes = refl

-- A map with a structure for its key.
abbrev unsound : List SourceFile
unsound = file_of 1 "a" (point (map_of (named "Point") (named "Point")) ∷ []) ∷ []

key_refused :
    run validator record { files = unsound } []
    ≡ record {
      severity = error;
      location = record { file = 1 ∷ []; line = 2; column = 2 };
      message = bad_map_key (field_of "x" "Point");
    }
      ∷ []
unfolding run register_default_passes add_pass_factory instantiate_passes run_pass each
    module_index_pass index_module declaration_index_pass index_declaration register_declaration
    find qualified_name to_string joined each_after enum_validation_pass validate_enum check_names
    is_in struct_validation_pass validate_struct validate_field interface_validation_pass
    validate_interface check_id_collection check_id_bounds is_seen validate validate_map_key
    resolve_user_type lookup_type report_error report locate
key_refused = refl
