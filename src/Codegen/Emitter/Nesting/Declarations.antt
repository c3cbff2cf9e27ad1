-- ===== src/Codegen/Emitter/Nesting/Declarations.antt =====
-- The declarations of a header are closed.
use Prim.Native.String.{String}
use hasten.Common.{ℕ, refl, List, [], ◌∷◌, Option, none, some}
use hasten.Codegen.Ir.{IrField, IrStruct, IrEnumerator, IrEnum, IrMethod, IrInterface}
use hasten.Codegen.Emitter.{literal, indentation, decimal, signed_decimal, concat, write_joined}
use hasten.Codegen.Emitter.Types.{map_type, parameter_declaration, method_result_type}
use hasten.Codegen.Emitter.Declarations.{
  enumerator_value, comma_after, build_tuple_info, generate_header_comment,
  generate_header_includes, to_indented_string, generate_enum, generate_struct_field,
  generate_struct_definition, generate_struct, generate_tuple_structs, callback_type,
  generate_client_method, generate_virtual_method, generate_interface, generate_uds_client_creation,
}
use hasten.Codegen.Emitter.Nesting.{
  nesting, depth_after, Closed, through, Closed-concat, Closed-write_joined,
}
use hasten.Codegen.Emitter.Nesting.Types.{
  Closed-map_type, Closed-parameter_declaration, Closed-method_result_type,
}

pub Closed-generate_header_comment : Closed (generate_header_comment)
unfolding generate_header_comment indentation decimal signed_decimal nesting depth_after
Closed-generate_header_comment depth = refl

pub Closed-generate_header_includes : Closed (generate_header_includes)
unfolding generate_header_includes indentation decimal signed_decimal nesting depth_after
Closed-generate_header_includes depth = refl

Closed-enumerator_value : (value : Option ℕ) → Closed (enumerator_value value)
unfolding enumerator_value signed_decimal nesting depth_after
Closed-enumerator_value none depth = refl
Closed-enumerator_value (some value) depth = refl

pub Closed-to_indented_string :
    (indent_level : ℕ) (e : IrEnumerator) → Closed (to_indented_string indent_level e)
unfolding to_indented_string indentation decimal signed_decimal nesting depth_after
Closed-to_indented_string indent_level e depth = (Closed-enumerator_value e.value) _

pub Closed-generate_enum :
    (indent_level : ℕ) (enum_ir : IrEnum) → Closed (generate_enum indent_level enum_ir)
unfolding generate_enum indentation decimal signed_decimal nesting depth_after
Closed-generate_enum indent_level enum_ir depth =
    through (write_joined enum_ir.values (to_indented_string indent_level) (literal ",\n" ∷ [])) _ _
      _
      (Closed-write_joined (to_indented_string indent_level)
        (Closed-to_indented_string indent_level) (literal ",\n" ∷ []) (λ depth. refl)
        enum_ir.values)
      (refl)

pub Closed-generate_struct_field :
    (indent_level : ℕ) (f : IrField) → Closed (generate_struct_field indent_level f)
unfolding generate_struct_field indentation decimal signed_decimal nesting depth_after
Closed-generate_struct_field indent_level f depth =
    through (map_type f.type) _ _ _ (Closed-map_type f.type) (refl)

pub Closed-generate_struct_definition :
    (indent_level : ℕ) (name : String) (fields : List IrField)
    → Closed (generate_struct_definition indent_level name fields)
unfolding generate_struct_definition indentation decimal signed_decimal nesting depth_after
Closed-generate_struct_definition indent_level name fields depth =
    through (concat (generate_struct_field indent_level) fields) _ _ _
      (Closed-concat (generate_struct_field indent_level)
        (Closed-generate_struct_field indent_level) fields)
      (refl)

pub Closed-generate_struct :
    (indent_level : ℕ) (s : IrStruct) → Closed (generate_struct indent_level s)
unfolding generate_struct indentation decimal signed_decimal nesting depth_after
Closed-generate_struct indent_level s depth =
    (Closed-generate_struct_definition indent_level s.name s.fields) _

pub Closed-generate_tuple_structs :
    (indent_level : ℕ) (interfaces : List IrInterface)
    → Closed (generate_tuple_structs indent_level interfaces)
unfolding generate_tuple_structs indentation decimal signed_decimal nesting depth_after
Closed-generate_tuple_structs indent_level interfaces depth =
    (Closed-concat (generate_struct indent_level) (Closed-generate_struct indent_level)
        (build_tuple_info interfaces))
      _

pub Closed-callback_type :
    (iface_name : String) (m : IrMethod) → Closed (callback_type iface_name m)
unfolding callback_type indentation decimal signed_decimal nesting depth_after
Closed-callback_type iface_name m depth =
    through (method_result_type iface_name m) _ _ _ (Closed-method_result_type iface_name m) (refl)

pub Closed-comma_after : (fields : List IrField) → Closed (comma_after fields)
unfolding comma_after nesting depth_after
Closed-comma_after [] depth = refl
Closed-comma_after (f ∷ fields) depth = refl

pub Closed-generate_client_method :
    (indent_level : ℕ) (iface : IrInterface) (m : IrMethod)
    → Closed (generate_client_method indent_level iface m)
unfolding generate_client_method indentation decimal signed_decimal nesting depth_after
Closed-generate_client_method indent_level iface m depth =
    through (write_joined m.parameters (parameter_declaration) (literal ", " ∷ [])) _ _ _
      (Closed-write_joined (parameter_declaration) (Closed-parameter_declaration)
        (literal ", " ∷ []) (λ depth. refl) m.parameters)
      (through (comma_after m.parameters) _ _ _ (Closed-comma_after m.parameters) (
        through (callback_type iface.name m) _ _ _ (Closed-callback_type iface.name m) (
          through (method_result_type iface.name m) _ _ _ (Closed-method_result_type iface.name m) (
            through (write_joined m.parameters (parameter_declaration) (literal ", " ∷ [])) _ _ _
              (Closed-write_joined (parameter_declaration) (Closed-parameter_declaration)
                (literal ", " ∷ []) (λ depth. refl) m.parameters)
              (through (method_result_type iface.name m) _ _ _
                (Closed-method_result_type iface.name m)
                (through (write_joined m.parameters (parameter_declaration) (literal ", " ∷ [])) _ _
                  _
                  (Closed-write_joined (parameter_declaration) (Closed-parameter_declaration)
                    (literal ", " ∷ []) (λ depth. refl) m.parameters)
                  (refl)))))))

pub Closed-generate_virtual_method :
    (indent_level : ℕ) (iface : IrInterface) (m : IrMethod)
    → Closed (generate_virtual_method indent_level iface m)
unfolding generate_virtual_method indentation decimal signed_decimal nesting depth_after
Closed-generate_virtual_method indent_level iface m depth =
    through (method_result_type iface.name m) _ _ _ (Closed-method_result_type iface.name m) (
      through (write_joined m.parameters (parameter_declaration) (literal ", " ∷ [])) _ _ _
        (Closed-write_joined (parameter_declaration) (Closed-parameter_declaration)
          (literal ", " ∷ []) (λ depth. refl) m.parameters)
        (refl))

pub Closed-generate_interface :
    (indent_level : ℕ) (iface : IrInterface) → Closed (generate_interface indent_level iface)
unfolding generate_interface indentation decimal signed_decimal nesting depth_after
Closed-generate_interface indent_level iface depth =
    through (concat (generate_client_method indent_level iface) iface.methods) _ _ _
      (Closed-concat (generate_client_method indent_level iface)
        (Closed-generate_client_method indent_level iface) iface.methods)
      (through (concat (generate_virtual_method indent_level iface) iface.methods) _ _ _
        (Closed-concat (generate_virtual_method indent_level iface)
          (Closed-generate_virtual_method indent_level iface) iface.methods)
        (refl))

pub Closed-generate_uds_client_creation :
    (indent_level : ℕ) (iface : IrInterface)
    → Closed (generate_uds_client_creation indent_level iface)
unfolding generate_uds_client_creation indentation decimal signed_decimal nesting depth_after
Closed-generate_uds_client_creation indent_level iface depth = refl
