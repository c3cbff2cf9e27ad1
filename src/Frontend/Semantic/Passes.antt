-- ===== src/Frontend/Semantic/Passes.antt =====
-- The five passes of src/frontend/semantic, each over the files of the program in the order in
-- which the map of files hands them out, and check_unique_names of utility.hpp.
use text.Mathlib.Text.{◌==◌ as ◌is◌}
use hasten.Common.{
  String, List, [], ◌∷◌, ◌++◌, map, Bool, false, ◌||◌, Option, none, some, if◌then◌else◌,
}
use hasten.Idl.Ast.{
  PositionTagged, Field, Parameter, Enumerator, Method, MethodResult, result_type, result_fields,
  Declaration, constant_declaration, enum_declaration, struct_declaration, interface_declaration,
  to_string,
}
use hasten.Frontend.Program.{
  SourceFile, Program, Diagnostic, Owner, of_enum, of_struct, of_interface, of_method, of_result,
  ElementKind, enumerator, field, method, parameter, result_field, field_of, parameter_of,
  result_field_of, result_of, locate, duplicate_name, module_defined, declaration_defined,
}
use hasten.Frontend.Ids.{Node, check_id_collection}
use hasten.Frontend.Semantic.{
  DeclKind, struct_kind, enum_kind, interface_kind, DeclInfo, Context, find, report_error,
  qualified_name, validate,
}

abbrev pub module_name_of : SourceFile → String
module_name_of file = to_string file.syntax.name

-- ModuleIndexPass

unfoldable pub index_module : SourceFile → Context → Context
index_module file context = elim (find (module_name_of file) context.module_index) [
  | none ↦ record {
    module_index = context.module_index ++ ((module_name_of file, file) ∷ []);
    declaration_index = context.declaration_index;
    diagnostics = context.diagnostics;
  }
  | some earlier ↦ record {
    module_index = context.module_index;
    declaration_index = context.declaration_index;
    diagnostics =
        report_error file file.syntax.position (module_defined (module_name_of file) earlier.path)
          context.diagnostics;
  }
]

-- A loop over a list that hands the state on.
unfoldable pub each {ℓ κ} : {A : Type ℓ} {S : Type κ} → (A → S → S) → List A → S → S
each step [] state = state
each step (x ∷ xs) state = each step xs (step x state)

unfoldable pub module_index_pass : Program → Context → Context
module_index_pass program context = each index_module program.files record {
  module_index = [];
  declaration_index = context.declaration_index;
  diagnostics = context.diagnostics;
}

-- DeclarationIndexPass

unfoldable pub register_declaration :
    SourceFile → String → PositionTagged → DeclKind → Context → Context
register_declaration file name position kind context =
    elim (find (qualified_name (module_name_of file) name) context.declaration_index) [
      | none ↦ record {
        module_index = context.module_index;
        declaration_index =
            context.declaration_index
            ++ ((qualified_name (module_name_of file) name, record { kind = kind; file = file })
                ∷ []);
        diagnostics = context.diagnostics;
      }
      | some earlier ↦ record {
        module_index = context.module_index;
        declaration_index = context.declaration_index;
        diagnostics =
            report_error file position
              (declaration_defined (qualified_name (module_name_of file) name) earlier.file.path)
              context.diagnostics;
      }
    ]

unfoldable pub index_declaration : SourceFile → Declaration → Context → Context
index_declaration file (constant_declaration c) context = context
index_declaration file (enum_declaration e) context =
    register_declaration file e.name e.position enum_kind context
index_declaration file (struct_declaration s) context =
    register_declaration file s.name s.position struct_kind context
index_declaration file (interface_declaration i) context =
    register_declaration file i.name i.position interface_kind context

unfoldable pub declaration_index_pass : Program → Context → Context
declaration_index_pass program context =
    each (λ file. each (index_declaration file) file.syntax.decls) program.files
      record {
        module_index = context.module_index;
        declaration_index = [];
        diagnostics = context.diagnostics;
      }

-- The name and the tag of a node, which is what `check_unique_names` reads of it.
pub record Named : Type 0 where
  pub name : String
  pub position : PositionTagged

unfoldable pub is_in : String → List String → Bool
is_in name [] = false
is_in name (n ∷ names) = n is name || is_in name names

-- The loop of `check_unique_names`, with the names seen.
unfoldable pub check_names :
    SourceFile → Owner → ElementKind → List String → List Named → List Diagnostic → List Diagnostic
check_names file owner kind seen [] sink = sink
check_names file owner kind seen (node ∷ nodes) sink =
    check_names file owner kind (node.name ∷ seen) nodes (
      if is_in node.name seen
      then report_error file node.position (duplicate_name kind node.name owner) sink
      else sink)

abbrev pub check_unique_names :
    SourceFile → Owner → ElementKind → List Named → List Diagnostic → List Diagnostic
check_unique_names file owner kind nodes sink = check_names file owner kind [] nodes sink

abbrev pub enumerator_name : Enumerator → Named
enumerator_name e = record { name = e.name; position = e.position }

abbrev pub field_name : Field → Named
field_name f = record { name = f.name; position = f.position }

abbrev pub parameter_name : Parameter → Named
parameter_name p = record { name = p.name; position = p.position }

abbrev pub method_name : Method → Named
method_name m = record { name = m.name; position = m.position }

abbrev pub field_node : SourceFile → Field → Node
field_node file f = record { id = f.id; location = locate f.position file }

abbrev pub parameter_node : SourceFile → Parameter → Node
parameter_node file p = record { id = p.id; location = locate p.position file }

-- EnumValidationPass

unfoldable pub validate_enum : SourceFile → Declaration → List Diagnostic → List Diagnostic
validate_enum file (enum_declaration e) sink =
    check_unique_names file (of_enum e.name) enumerator (map enumerator_name e.items) sink
validate_enum file _ sink = sink

-- StructValidationPass and InterfaceValidationPass

module _ (declarations : List (String × DeclInfo)) (file : SourceFile) where
  unfoldable pub validate_field : String → Field → List Diagnostic → List Diagnostic
  validate_field owner f sink =
      validate declarations (module_name_of file) file f.position f.type (field_of f.name owner)
        sink

  unfoldable pub validate_struct : Declaration → List Diagnostic → List Diagnostic
  validate_struct (struct_declaration s) sink = each (validate_field s.name) s.fields (
      check_id_collection field (of_struct s.name) (map (field_node file) s.fields)
        (check_unique_names file (of_struct s.name) field (map field_name s.fields) sink))
  validate_struct _ sink = sink

  unfoldable pub validate_parameter : String → Parameter → List Diagnostic → List Diagnostic
  validate_parameter owner p sink =
      validate declarations (module_name_of file) file p.position p.type (parameter_of p.name owner)
        sink

  unfoldable pub validate_result_field : String → Field → List Diagnostic → List Diagnostic
  validate_result_field owner f sink =
      validate declarations (module_name_of file) file f.position f.type
        (result_field_of f.name owner) sink

  unfoldable pub validate_result :
      String → PositionTagged → Option MethodResult → List Diagnostic → List Diagnostic
  validate_result owner position none sink = sink
  validate_result owner position (some (result_fields fields)) sink =
      each (validate_result_field owner) fields (
        check_id_collection result_field (of_method owner) (map (field_node file) fields)
          (check_unique_names file (of_result owner) field (map field_name fields) sink))
  validate_result owner position (some (result_type type)) sink =
      validate declarations (module_name_of file) file position type (result_of owner) sink

  unfoldable pub validate_method : Method → List Diagnostic → List Diagnostic
  validate_method m sink = validate_result m.name m.position m.result (
      each (validate_parameter m.name) m.params (
        check_id_collection parameter (of_method m.name) (map (parameter_node file) m.params) (
          check_unique_names file (of_method m.name) parameter (map parameter_name m.params) sink)))

  unfoldable pub validate_interface : Declaration → List Diagnostic → List Diagnostic
  validate_interface (interface_declaration i) sink =
      each validate_method i.methods
        (check_unique_names file (of_interface i.name) method (map method_name i.methods) sink)
  validate_interface _ sink = sink

-- A pass that only reports: over each declaration of each file.
abbrev pub with_diagnostics : Context → List Diagnostic → Context
with_diagnostics context sink = record {
  module_index = context.module_index;
  declaration_index = context.declaration_index;
  diagnostics = sink;
}

abbrev pub each_declaration :
    (SourceFile → Declaration → List Diagnostic → List Diagnostic)
    → List SourceFile
    → List Diagnostic
    → List Diagnostic
each_declaration check files sink = each (λ file. each (check file) file.syntax.decls) files sink

unfoldable pub enum_validation_pass : Program → Context → Context
enum_validation_pass program context =
    with_diagnostics context
      (each_declaration (λ file. validate_enum file) program.files context.diagnostics)

unfoldable pub struct_validation_pass : Program → Context → Context
struct_validation_pass program context = with_diagnostics context (
    each_declaration (λ file. validate_struct context.declaration_index file) program.files
      context.diagnostics)

unfoldable pub interface_validation_pass : Program → Context → Context
interface_validation_pass program context = with_diagnostics context (
    each_declaration (λ file. validate_interface context.declaration_index file) program.files
      context.diagnostics)
