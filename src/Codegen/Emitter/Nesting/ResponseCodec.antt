-- ===== src/Codegen/Emitter/Nesting/ResponseCodec.antt =====
-- The functions for responses are closed.
use hasten.Common.{ℕ, ◌+◌, refl, List, [], ◌∷◌}
use hasten.Codegen.Ir.{IrField, IrStruct, IrMethod, IrInterface}
use hasten.Codegen.Emitter.{literal, computed, indentation, decimal, signed_decimal, concat}
use hasten.Codegen.Emitter.Types.{method_result_type}
use hasten.Codegen.Emitter.Fields.{emit_decode_field_value}
use hasten.Codegen.Emitter.Nesting.{nesting, depth_after, Closed, through, Closed-concat}
use hasten.Codegen.Emitter.Nesting.Types.{Closed-method_result_type}
use hasten.Codegen.Emitter.Nesting.Fields.{Closed-emit_encode, Closed-emit_decode}
use hasten.Codegen.Emitter.StructCodec.{unless_optional}
use hasten.Codegen.Emitter.Metadata.{response_fields}
use hasten.Codegen.Emitter.Nesting.StructCodec.{Closed-unless_optional}
use hasten.Codegen.Emitter.ResponseCodec.{
  response_encode_field, response_encoder, response_presence_line, response_presence,
  response_present, response_case, response_missing_field, response_missing, response_decoder,
}

pub Closed-response_encode_field :
    (struct_lookup : List IrStruct) (indent_level : ℕ) (f : IrField)
    → Closed (response_encode_field struct_lookup indent_level f)
unfolding response_encode_field indentation decimal signed_decimal nesting depth_after
Closed-response_encode_field struct_lookup indent_level f depth =
    (Closed-emit_encode struct_lookup (indent_level + 1) f f.type
        (literal "value." ∷ computed f.name ∷ []) (λ depth. refl))
      _

pub Closed-response_encoder :
    (struct_lookup : List IrStruct) (indent_level : ℕ) (iface : IrInterface) (m : IrMethod)
    → Closed (response_encoder struct_lookup indent_level iface m)
unfolding response_encoder indentation decimal signed_decimal nesting depth_after
Closed-response_encoder struct_lookup indent_level iface m depth =
    through (method_result_type iface.name m) _ _ _ (Closed-method_result_type iface.name m) (
      through
        (concat (response_encode_field struct_lookup indent_level) (response_fields "value" m)) _ _
        _
        (Closed-concat (response_encode_field struct_lookup indent_level)
          (Closed-response_encode_field struct_lookup indent_level) (response_fields "value" m))
        (refl))

pub Closed-response_presence_line :
    (indent_level : ℕ) (f : IrField) → Closed (response_presence_line indent_level f)
unfolding response_presence_line indentation decimal signed_decimal nesting depth_after
Closed-response_presence_line indent_level f depth = refl

pub Closed-response_presence :
    (indent_level : ℕ) (f : IrField) → Closed (response_presence indent_level f)
unfolding response_presence indentation decimal signed_decimal nesting depth_after
Closed-response_presence indent_level f depth =
    (Closed-unless_optional f.type (response_presence_line indent_level f)
        (Closed-response_presence_line indent_level f))
      _

pub Closed-response_present :
    (indent_level : ℕ) (f : IrField) → Closed (response_present indent_level f)
unfolding response_present indentation decimal signed_decimal nesting depth_after
Closed-response_present indent_level f depth = refl

pub Closed-response_case :
    (struct_lookup : List IrStruct) (indent_level : ℕ) (f : IrField)
    → Closed (response_case struct_lookup indent_level f)
unfolding response_case indentation decimal signed_decimal nesting depth_after
Closed-response_case struct_lookup indent_level f depth =
    through
      (emit_decode_field_value struct_lookup (indent_level + 3) f f.type
        (literal "value." ∷ computed f.name ∷ []) (literal "field_value" ∷ []))
      _ _ _
      (Closed-emit_decode struct_lookup (literal "value." ∷ computed f.name ∷ [])
        (literal "field_value" ∷ []) (λ depth. refl) (λ depth. refl) (indent_level + 3) f f.type)
      (through (unless_optional f.type (response_present indent_level f)) _ _ _
        (Closed-unless_optional f.type (response_present indent_level f)
          (Closed-response_present indent_level f))
        (refl))

pub Closed-response_missing_field :
    (indent_level : ℕ) (iface : IrInterface) (m : IrMethod) (f : IrField)
    → Closed (response_missing_field indent_level iface m f)
unfolding response_missing_field indentation decimal signed_decimal nesting depth_after
Closed-response_missing_field indent_level iface m f depth =
    through (method_result_type iface.name m) _ _ _ (Closed-method_result_type iface.name m) (refl)

pub Closed-response_missing :
    (indent_level : ℕ) (iface : IrInterface) (m : IrMethod) (f : IrField)
    → Closed (response_missing indent_level iface m f)
unfolding response_missing indentation decimal signed_decimal nesting depth_after
Closed-response_missing indent_level iface m f depth =
    (Closed-unless_optional f.type (response_missing_field indent_level iface m f)
        (Closed-response_missing_field indent_level iface m f))
      _

pub Closed-response_decoder :
    (struct_lookup : List IrStruct) (indent_level : ℕ) (iface : IrInterface) (m : IrMethod)
    → Closed (response_decoder struct_lookup indent_level iface m)
unfolding response_decoder indentation decimal signed_decimal nesting depth_after
Closed-response_decoder struct_lookup indent_level iface m depth =
    through (method_result_type iface.name m) _ _ _ (Closed-method_result_type iface.name m) (
      through (method_result_type iface.name m) _ _ _ (Closed-method_result_type iface.name m) (
        through (concat (response_presence indent_level) (response_fields "value" m)) _ _ _
          (Closed-concat (response_presence indent_level) (Closed-response_presence indent_level)
            (response_fields "value" m))
          (through (concat (response_case struct_lookup indent_level) (response_fields "value" m)) _
            _ _
            (Closed-concat (response_case struct_lookup indent_level)
              (Closed-response_case struct_lookup indent_level) (response_fields "value" m))
            (through (concat (response_missing indent_level iface m) (response_fields "value" m)) _
              _ _
              (Closed-concat (response_missing indent_level iface m)
                (Closed-response_missing indent_level iface m) (response_fields "value" m))
              (refl)))))
