-- ===== src/Frontend/Semantic/Checks.antt =====
-- The checks of the declarations of a file: what each of the last three passes asks of one.
use hasten.Common.Bools.{all}
use hasten.Common.{String, List, map, Bool, true, ◌&&◌, Option, none, some}
use hasten.Idl.Ast.{
  PositionTagged, Field, Parameter, Method, MethodResult, result_type, result_fields, Declaration,
  constant_declaration, enum_declaration, struct_declaration, interface_declaration,
}
use hasten.Frontend.Program.{
  SourceFile, Diagnostic, of_enum, of_struct, of_interface, of_method, of_result, enumerator, field,
  method, parameter, result_field, result_of, ElementKind, Owner,
}
use hasten.Frontend.Ids.{Node, check_id_collection}
use hasten.Frontend.Ids.Laws.{valid_ids, has_errors-check_id_collection}
use hasten.Frontend.Semantic.{DeclInfo}
use hasten.Frontend.Semantic.Passes.{
  Named, each, module_name_of, check_unique_names, enumerator_name, field_name, parameter_name,
  method_name, field_node, parameter_node, validate_enum, validate_field, validate_struct,
  validate_parameter, validate_result_field, validate_result, validate_method, validate_interface,
}
use hasten.Frontend.Semantic.Reports.{Reports, Reports-none, Reports-then, Reports-each}
use hasten.Frontend.Semantic.Names.{distinct, name_of, Reports-check_unique_names}
use hasten.Frontend.Semantic.Types.{accepts, Reports-validate}

abbrev pub valid_names : List Named → Bool
valid_names nodes = distinct (map name_of nodes)

abbrev pub valid_enum : Declaration → Bool
valid_enum (enum_declaration e) = valid_names (map enumerator_name e.items)
valid_enum _ = true

module _ (declarations : List (String × DeclInfo)) (file : SourceFile) where
  abbrev pub valid_field : Field → Bool
  valid_field f = accepts declarations (module_name_of file) f.type

  abbrev pub valid_parameter : Parameter → Bool
  valid_parameter p = accepts declarations (module_name_of file) p.type

  -- Fields with names and ids of their own, and types that are taken.
  abbrev pub valid_fields : List Field → Bool
  valid_fields fields =
      (valid_names (map field_name fields) && valid_ids (map (field_node file) fields))
      && all valid_field fields

  abbrev pub valid_parameters : List Parameter → Bool
  valid_parameters params =
      (valid_names (map parameter_name params) && valid_ids (map (parameter_node file) params))
      && all valid_parameter params

  abbrev pub valid_result : Option MethodResult → Bool
  valid_result none = true
  valid_result (some (result_fields fields)) = valid_fields fields
  valid_result (some (result_type type)) = accepts declarations (module_name_of file) type

  abbrev pub valid_method : Method → Bool
  valid_method m = valid_parameters m.params && valid_result m.result

  abbrev pub valid_struct : Declaration → Bool
  valid_struct (struct_declaration s) = valid_fields s.fields
  valid_struct _ = true

  abbrev pub valid_interface : Declaration → Bool
  valid_interface (interface_declaration i) =
      valid_names (map method_name i.methods) && all valid_method i.methods
  valid_interface _ = true

  Reports-nodes :
      {A : Type 0} (kind elements : ElementKind) (owner owners : Owner) (names : List Named)
      (nodes : List Node) (step : A → List Diagnostic → List Diagnostic) (good : A → Bool)
      (xs : List A)
      → ((x : A) → Reports (step x) (good x))
      → Reports
          (λ sink. each step xs (
            check_id_collection elements owners nodes
              (check_unique_names file owner kind names sink)))
          ((valid_names names && valid_ids nodes) && all good xs)
  Reports-nodes kind elements owner owners names nodes step good xs reports =
      Reports-then
        (λ sink.
          check_id_collection elements owners nodes (check_unique_names file owner kind names sink))
        (each step xs) (valid_names names && valid_ids nodes) (all good xs)
        (Reports-then (check_unique_names file owner kind names)
          (check_id_collection elements owners nodes) (valid_names names) (valid_ids nodes)
          (Reports-check_unique_names file owner kind names)
          (has_errors-check_id_collection elements owners nodes))
        (Reports-each step good reports xs)

  pub Reports-struct :
      (d : Declaration) → Reports (validate_struct declarations file d) (valid_struct d)
  unfolding validate_struct validate_field
  Reports-struct (struct_declaration s) =
      Reports-nodes field field (of_struct s.name) (of_struct s.name) (map field_name s.fields)
        (map (field_node file) s.fields) (validate_field declarations file s.name) valid_field
        s.fields (λ f. Reports-validate declarations (module_name_of file) file f.position f.type _)
  Reports-struct (constant_declaration c) = Reports-none
  Reports-struct (enum_declaration e) = Reports-none
  Reports-struct (interface_declaration i) = Reports-none

  Reports-result :
      (name : String) (position : PositionTagged) (result : Option MethodResult)
      → Reports (validate_result declarations file name position result) (valid_result result)
  unfolding validate_result validate_result_field
  Reports-result name position none = Reports-none
  Reports-result name position (some (result_fields fields)) =
      Reports-nodes field result_field (of_result name) (of_method name) (map field_name fields)
        (map (field_node file) fields) (validate_result_field declarations file name) valid_field
        fields (λ f. Reports-validate declarations (module_name_of file) file f.position f.type _)
  Reports-result name position (some (result_type type)) =
      Reports-validate declarations (module_name_of file) file position type (result_of name)

  Reports-method : (m : Method) → Reports (validate_method declarations file m) (valid_method m)
  unfolding validate_method validate_parameter
  Reports-method m =
      Reports-then
        (λ sink. each (validate_parameter declarations file m.name) m.params (
          check_id_collection parameter (of_method m.name) (map (parameter_node file) m.params) (
            check_unique_names file (of_method m.name) parameter (map parameter_name m.params)
              sink)))
        (validate_result declarations file m.name m.position m.result) (valid_parameters m.params)
        (valid_result m.result)
        (Reports-nodes parameter parameter (of_method m.name) (of_method m.name)
          (map parameter_name m.params) (map (parameter_node file) m.params)
          (validate_parameter declarations file m.name) valid_parameter m.params
          (λ p. Reports-validate declarations (module_name_of file) file p.position p.type _))
        (Reports-result m.name m.position m.result)

  pub Reports-interface :
      (d : Declaration) → Reports (validate_interface declarations file d) (valid_interface d)
  unfolding validate_interface
  Reports-interface (interface_declaration i) =
      Reports-then
        (check_unique_names file (of_interface i.name) method (map method_name i.methods))
        (each (validate_method declarations file) i.methods)
        (valid_names (map method_name i.methods)) (all valid_method i.methods)
        (Reports-check_unique_names file (of_interface i.name) method (map method_name i.methods))
        (Reports-each (validate_method declarations file) valid_method Reports-method i.methods)
  Reports-interface (constant_declaration c) = Reports-none
  Reports-interface (enum_declaration e) = Reports-none
  Reports-interface (struct_declaration s) = Reports-none

pub Reports-enum :
    (file : SourceFile) (d : Declaration) → Reports (validate_enum file d) (valid_enum d)
unfolding validate_enum
Reports-enum file (enum_declaration e) =
    Reports-check_unique_names file (of_enum e.name) enumerator (map enumerator_name e.items)
Reports-enum file (constant_declaration c) = Reports-none
Reports-enum file (struct_declaration s) = Reports-none
Reports-enum file (interface_declaration i) = Reports-none
