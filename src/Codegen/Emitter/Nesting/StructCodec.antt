-- ===== src/Codegen/Emitter/Nesting/StructCodec.antt =====
-- The functions for structures are closed.
use hasten.Common.{ℕ, ◌+◌, refl, List, [], ◌∷◌}
use hasten.Idl.Ast.{AstType, primitive, user_type, vector_of, map_of, optional_of}
use hasten.Codegen.Ir.{IrField, IrStruct, IrModule}
use hasten.Codegen.Emitter.{Text, literal, computed, indentation, decimal, signed_decimal, concat}
use hasten.Codegen.Emitter.Fields.{emit_decode_field_value}
use hasten.Codegen.Emitter.Nesting.{nesting, depth_after, Closed, through, Closed-concat}
use hasten.Codegen.Emitter.Nesting.Fields.{Closed-emit_encode, Closed-emit_decode}
use hasten.Codegen.Emitter.StructCodec.{
  unless_optional, struct_encode_field, struct_encoder, struct_presence_line, struct_presence,
  struct_present, struct_case, struct_missing_field, struct_missing, struct_decoder,
}

pub Closed-unless_optional :
    (type : AstType) (text : Text) → Closed text → Closed (unless_optional type text)
unfolding unless_optional nesting
Closed-unless_optional (optional_of inner) text closed depth = refl
Closed-unless_optional (primitive kind) text closed depth = closed depth
Closed-unless_optional (user_type user) text closed depth = closed depth
Closed-unless_optional (vector_of element) text closed depth = closed depth
Closed-unless_optional (map_of key value) text closed depth = closed depth

pub Closed-struct_encode_field :
    (struct_lookup : List IrStruct) (indent_level : ℕ) (f : IrField)
    → Closed (struct_encode_field struct_lookup indent_level f)
unfolding struct_encode_field indentation decimal signed_decimal nesting depth_after
Closed-struct_encode_field struct_lookup indent_level f depth =
    (Closed-emit_encode struct_lookup (indent_level + 1) f f.type
        (literal "value." ∷ computed f.name ∷ []) (λ depth. refl))
      _

pub Closed-struct_encoder :
    (struct_lookup : List IrStruct) (indent_level : ℕ) (ir : IrModule) (s : IrStruct)
    → Closed (struct_encoder struct_lookup indent_level ir s)
unfolding struct_encoder indentation decimal signed_decimal nesting depth_after
Closed-struct_encoder struct_lookup indent_level ir s depth =
    through (concat (struct_encode_field struct_lookup indent_level) s.fields) _ _ _
      (Closed-concat (struct_encode_field struct_lookup indent_level)
        (Closed-struct_encode_field struct_lookup indent_level) s.fields)
      (refl)

pub Closed-struct_presence_line :
    (indent_level : ℕ) (f : IrField) → Closed (struct_presence_line indent_level f)
unfolding struct_presence_line indentation decimal signed_decimal nesting depth_after
Closed-struct_presence_line indent_level f depth = refl

pub Closed-struct_presence :
    (indent_level : ℕ) (f : IrField) → Closed (struct_presence indent_level f)
unfolding struct_presence indentation decimal signed_decimal nesting depth_after
Closed-struct_presence indent_level f depth =
    (Closed-unless_optional f.type (struct_presence_line indent_level f)
        (Closed-struct_presence_line indent_level f))
      _

pub Closed-struct_present :
    (indent_level : ℕ) (f : IrField) → Closed (struct_present indent_level f)
unfolding struct_present indentation decimal signed_decimal nesting depth_after
Closed-struct_present indent_level f depth = refl

pub Closed-struct_case :
    (struct_lookup : List IrStruct) (indent_level : ℕ) (f : IrField)
    → Closed (struct_case struct_lookup indent_level f)
unfolding struct_case indentation decimal signed_decimal nesting depth_after
Closed-struct_case struct_lookup indent_level f depth =
    through
      (emit_decode_field_value struct_lookup (indent_level + 3) f f.type
        (literal "value." ∷ computed f.name ∷ []) (literal "field_value" ∷ []))
      _ _ _
      (Closed-emit_decode struct_lookup (literal "value." ∷ computed f.name ∷ [])
        (literal "field_value" ∷ []) (λ depth. refl) (λ depth. refl) (indent_level + 3) f f.type)
      (through (unless_optional f.type (struct_present indent_level f)) _ _ _
        (Closed-unless_optional f.type (struct_present indent_level f)
          (Closed-struct_present indent_level f))
        (refl))

pub Closed-struct_missing_field :
    (indent_level : ℕ) (ir : IrModule) (s : IrStruct) (f : IrField)
    → Closed (struct_missing_field indent_level ir s f)
unfolding struct_missing_field indentation decimal signed_decimal nesting depth_after
Closed-struct_missing_field indent_level ir s f depth = refl

pub Closed-struct_missing :
    (indent_level : ℕ) (ir : IrModule) (s : IrStruct) (f : IrField)
    → Closed (struct_missing indent_level ir s f)
unfolding struct_missing indentation decimal signed_decimal nesting depth_after
Closed-struct_missing indent_level ir s f depth =
    (Closed-unless_optional f.type (struct_missing_field indent_level ir s f)
        (Closed-struct_missing_field indent_level ir s f))
      _

pub Closed-struct_decoder :
    (struct_lookup : List IrStruct) (indent_level : ℕ) (ir : IrModule) (s : IrStruct)
    → Closed (struct_decoder struct_lookup indent_level ir s)
unfolding struct_decoder indentation decimal signed_decimal nesting depth_after
Closed-struct_decoder struct_lookup indent_level ir s depth =
    through (concat (struct_presence indent_level) s.fields) _ _ _
      (Closed-concat (struct_presence indent_level) (Closed-struct_presence indent_level) s.fields)
      (through (concat (struct_case struct_lookup indent_level) s.fields) _ _ _
        (Closed-concat (struct_case struct_lookup indent_level)
          (Closed-struct_case struct_lookup indent_level) s.fields)
        (through (concat (struct_missing indent_level ir s) s.fields) _ _ _
          (Closed-concat (struct_missing indent_level ir s)
            (Closed-struct_missing indent_level ir s) s.fields)
          (refl)))
