-- ===== src/Codegen/Emitter/Nesting/RequestCodec.antt =====
-- The functions for requests are closed.
use hasten.Common.{ℕ, ◌+◌, refl, List, [], ◌∷◌}
use hasten.Codegen.Ir.{IrField, IrStruct, IrMethod, IrInterface}
use hasten.Codegen.Emitter.{literal, computed, indentation, decimal, signed_decimal, concat}
use hasten.Codegen.Emitter.Types.{map_type}
use hasten.Codegen.Emitter.Fields.{emit_decode_field_value}
use hasten.Codegen.Emitter.Nesting.{nesting, depth_after, Closed, through, Closed-concat}
use hasten.Codegen.Emitter.Nesting.Types.{Closed-map_type}
use hasten.Codegen.Emitter.Nesting.Fields.{Closed-emit_encode, Closed-emit_decode}
use hasten.Codegen.Emitter.StructCodec.{unless_optional}
use hasten.Codegen.Emitter.Nesting.StructCodec.{Closed-unless_optional}
use hasten.Codegen.Emitter.RequestCodec.{
  request_parameter, request_encode_field, request_encoder, request_struct_field, request_struct,
  request_presence_line, request_presence, request_present, request_case, request_missing_field,
  request_missing, request_decoder,
}

pub Closed-request_parameter : (f : IrField) → Closed (request_parameter f)
unfolding request_parameter indentation decimal signed_decimal nesting depth_after
Closed-request_parameter f depth = through (map_type f.type) _ _ _ (Closed-map_type f.type) (refl)

pub Closed-request_encode_field :
    (struct_lookup : List IrStruct) (indent_level : ℕ) (f : IrField)
    → Closed (request_encode_field struct_lookup indent_level f)
unfolding request_encode_field indentation decimal signed_decimal nesting depth_after
Closed-request_encode_field struct_lookup indent_level f depth =
    (Closed-emit_encode struct_lookup (indent_level + 1) f f.type (computed f.name ∷ [])
        (λ depth. refl))
      _

pub Closed-request_encoder :
    (struct_lookup : List IrStruct) (indent_level : ℕ) (iface : IrInterface) (m : IrMethod)
    → Closed (request_encoder struct_lookup indent_level iface m)
unfolding request_encoder indentation decimal signed_decimal nesting depth_after
Closed-request_encoder struct_lookup indent_level iface m depth =
    through (concat request_parameter m.parameters) _ _ _
      (Closed-concat (request_parameter) (Closed-request_parameter) m.parameters)
      (through (concat (request_encode_field struct_lookup indent_level) m.parameters) _ _ _
        (Closed-concat (request_encode_field struct_lookup indent_level)
          (Closed-request_encode_field struct_lookup indent_level) m.parameters)
        (refl))

pub Closed-request_struct_field :
    (indent_level : ℕ) (f : IrField) → Closed (request_struct_field indent_level f)
unfolding request_struct_field indentation decimal signed_decimal nesting depth_after
Closed-request_struct_field indent_level f depth =
    through (map_type f.type) _ _ _ (Closed-map_type f.type) (refl)

pub Closed-request_struct :
    (indent_level : ℕ) (iface : IrInterface) (m : IrMethod)
    → Closed (request_struct indent_level iface m)
unfolding request_struct indentation decimal signed_decimal nesting depth_after
Closed-request_struct indent_level iface m depth =
    through (concat (request_struct_field indent_level) m.parameters) _ _ _
      (Closed-concat (request_struct_field indent_level) (Closed-request_struct_field indent_level)
        m.parameters)
      (refl)

pub Closed-request_presence_line :
    (indent_level : ℕ) (f : IrField) → Closed (request_presence_line indent_level f)
unfolding request_presence_line indentation decimal signed_decimal nesting depth_after
Closed-request_presence_line indent_level f depth = refl

pub Closed-request_presence :
    (indent_level : ℕ) (f : IrField) → Closed (request_presence indent_level f)
unfolding request_presence indentation decimal signed_decimal nesting depth_after
Closed-request_presence indent_level f depth =
    (Closed-unless_optional f.type (request_presence_line indent_level f)
        (Closed-request_presence_line indent_level f))
      _

pub Closed-request_present :
    (indent_level : ℕ) (f : IrField) → Closed (request_present indent_level f)
unfolding request_present indentation decimal signed_decimal nesting depth_after
Closed-request_present indent_level f depth = refl

pub Closed-request_case :
    (struct_lookup : List IrStruct) (indent_level : ℕ) (f : IrField)
    → Closed (request_case struct_lookup indent_level f)
unfolding request_case indentation decimal signed_decimal nesting depth_after
Closed-request_case struct_lookup indent_level f depth =
    through
      (emit_decode_field_value struct_lookup (indent_level + 3) f f.type
        (literal "request." ∷ computed f.name ∷ []) (literal "field_value" ∷ []))
      _ _ _
      (Closed-emit_decode struct_lookup (literal "request." ∷ computed f.name ∷ [])
        (literal "field_value" ∷ []) (λ depth. refl) (λ depth. refl) (indent_level + 3) f f.type)
      (through (unless_optional f.type (request_present indent_level f)) _ _ _
        (Closed-unless_optional f.type (request_present indent_level f)
          (Closed-request_present indent_level f))
        (refl))

pub Closed-request_missing_field :
    (indent_level : ℕ) (iface : IrInterface) (m : IrMethod) (f : IrField)
    → Closed (request_missing_field indent_level iface m f)
unfolding request_missing_field indentation decimal signed_decimal nesting depth_after
Closed-request_missing_field indent_level iface m f depth = refl

pub Closed-request_missing :
    (indent_level : ℕ) (iface : IrInterface) (m : IrMethod) (f : IrField)
    → Closed (request_missing indent_level iface m f)
unfolding request_missing indentation decimal signed_decimal nesting depth_after
Closed-request_missing indent_level iface m f depth =
    (Closed-unless_optional f.type (request_missing_field indent_level iface m f)
        (Closed-request_missing_field indent_level iface m f))
      _

pub Closed-request_decoder :
    (struct_lookup : List IrStruct) (indent_level : ℕ) (iface : IrInterface) (m : IrMethod)
    → Closed (request_decoder struct_lookup indent_level iface m)
unfolding request_decoder indentation decimal signed_decimal nesting depth_after
Closed-request_decoder struct_lookup indent_level iface m depth =
    through (concat (request_presence indent_level) m.parameters) _ _ _
      (Closed-concat (request_presence indent_level) (Closed-request_presence indent_level)
        m.parameters)
      (through (concat (request_case struct_lookup indent_level) m.parameters) _ _ _
        (Closed-concat (request_case struct_lookup indent_level)
          (Closed-request_case struct_lookup indent_level) m.parameters)
        (through (concat (request_missing indent_level iface m) m.parameters) _ _ _
          (Closed-concat (request_missing indent_level iface m)
            (Closed-request_missing indent_level iface m) m.parameters)
          (refl)))
