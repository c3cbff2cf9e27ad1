-- ===== src/Codegen/Emitter/Nesting/Metadata.antt =====
-- The descriptors and the ids are closed.
use Prim.Native.String as String
use Prim.Native.String.{String}
use hasten.Common.{ℕ, refl, [], ◌∷◌}
use hasten.Codegen.Ir.{IrStruct, IrMethod, IrInterface}
use hasten.Codegen.Emitter.{literal, computed, indentation, decimal, signed_decimal, concat}
use hasten.Codegen.Emitter.Names.{hash_literal}
use hasten.Codegen.Emitter.Types.{emit_descriptor_array}
use hasten.Codegen.Emitter.Nesting.{nesting, depth_after, Closed, through, Closed-concat}
use hasten.Codegen.Emitter.Nesting.Types.{Closed-descriptor_array, Closed-hash_literal}
use hasten.Codegen.Emitter.Metadata.{
  response_fields, varint_helpers, struct_descriptors, method_metadata, interface_metadata,
}

pub Closed-varint_helpers : (indent_level : ℕ) → Closed (varint_helpers indent_level)
unfolding varint_helpers indentation decimal signed_decimal nesting depth_after
Closed-varint_helpers indent_level depth = refl

pub Closed-struct_descriptors :
    (indent_level : ℕ) (s : IrStruct) → Closed (struct_descriptors indent_level s)
unfolding struct_descriptors indentation decimal signed_decimal nesting depth_after
Closed-struct_descriptors indent_level s depth =
    through
      (emit_descriptor_array (indentation indent_level ∷ []) (literal "inline constexpr " ∷ [])
        (computed s.name ∷ literal "_FieldDescriptors" ∷ []) s.fields)
      _ _ _
      (Closed-descriptor_array (indentation indent_level ∷ []) (literal "inline constexpr " ∷ [])
        (computed s.name ∷ literal "_FieldDescriptors" ∷ []) s.fields (λ depth. refl)
        (λ depth. refl) (λ depth. refl))
      (refl)

pub Closed-method_metadata :
    (indent_level : ℕ) (ir_name : String) (iface : IrInterface) (m : IrMethod)
    → Closed (method_metadata indent_level ir_name iface m)
unfolding method_metadata indentation decimal signed_decimal nesting depth_after
Closed-method_metadata indent_level ir_name iface m depth =
    through
      (hash_literal
        (String.◌++◌ ir_name (String.◌++◌ "." (String.◌++◌ iface.name (String.◌++◌ "." m.name)))))
      _ _ _ (Closed-hash_literal _)
      (through
        (emit_descriptor_array (indentation indent_level ∷ literal "        " ∷ [])
          (literal "static constexpr " ∷ []) (literal "RequestFields" ∷ []) m.parameters)
        _ _ _
        (Closed-descriptor_array (indentation indent_level ∷ literal "        " ∷ [])
          (literal "static constexpr " ∷ []) (literal "RequestFields" ∷ []) m.parameters
          (λ depth. refl) (λ depth. refl) (λ depth. refl))
        (through
          (emit_descriptor_array (indentation indent_level ∷ literal "        " ∷ [])
            (literal "static constexpr " ∷ []) (literal "ResponseFields" ∷ [])
            (response_fields "" m))
          _ _ _
          (Closed-descriptor_array (indentation indent_level ∷ literal "        " ∷ [])
            (literal "static constexpr " ∷ []) (literal "ResponseFields" ∷ [])
            (response_fields "" m) (λ depth. refl) (λ depth. refl) (λ depth. refl))
          (refl)))

pub Closed-interface_metadata :
    (indent_level : ℕ) (ir_name : String) (iface : IrInterface)
    → Closed (interface_metadata indent_level ir_name iface)
unfolding interface_metadata indentation decimal signed_decimal nesting depth_after
Closed-interface_metadata indent_level ir_name iface depth =
    through (hash_literal ir_name) _ _ _ (Closed-hash_literal _) (
      through (hash_literal (String.◌++◌ ir_name (String.◌++◌ "." iface.name))) _ _ _
        (Closed-hash_literal _)
        (through (concat (method_metadata indent_level ir_name iface) iface.methods) _ _ _
          (Closed-concat (method_metadata indent_level ir_name iface)
            (Closed-method_metadata indent_level ir_name iface) iface.methods)
          (refl)))
