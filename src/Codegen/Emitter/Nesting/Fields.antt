-- ===== src/Codegen/Emitter/Nesting/Fields.antt =====
-- The code for a field is closed.
use hasten.Common.{ℕ, suc, ◌+◌, ◌≡◌, refl, List, [], ◌∷◌, ◌++◌, Option, none, some}
use hasten.Idl.Ast.{
  PrimitiveKind, bool, i8, i16, i32, i64, u8, u16, u32, u64, f32, f64, string, bytes, AstType,
  primitive, user_type, vector_of, map_of, optional_of,
}
use hasten.Codegen.Ir.{IrField, IrStruct}
use hasten.Codegen.Emitter.{Text, literal, indentation, decimal}
use hasten.Codegen.Emitter.Types.{
  map_type, find_struct, unwrap_optional_type, describe_type, wire_type_literal,
}
use hasten.Codegen.Emitter.Fields.{
  encode_signed, encode_unsigned, encode_primitive, encode_nested, encode_unimplemented,
  encode_field_value, emit_encode_field_value, decode_signed, decode_unsigned, decode_primitive,
  decode_nested, decode_unimplemented, decode_field_value, emit_decode_field_value,
}
use hasten.Codegen.Emitter.Nesting.{nesting, depth_after, Closed, Closes, through}
use hasten.Codegen.Emitter.Nesting.Types.{Closed-map_type, Closed-wire_type_literal}

module _ (struct_lookup : List IrStruct) where
  module _ (value_expr : Text) (expression : Closed value_expr) where
    Closed-encode_primitive :
        (level : ℕ) (kind : PrimitiveKind) → Closed (encode_primitive level value_expr kind)
    unfolding encode_primitive encode_signed encode_unsigned indentation nesting depth_after
    Closed-encode_primitive level bool depth = through value_expr _ _ _ expression refl
    Closed-encode_primitive level i8 depth = through value_expr _ _ _ expression refl
    Closed-encode_primitive level i16 depth = through value_expr _ _ _ expression refl
    Closed-encode_primitive level i32 depth = through value_expr _ _ _ expression refl
    Closed-encode_primitive level i64 depth = through value_expr _ _ _ expression refl
    Closed-encode_primitive level u8 depth = through value_expr _ _ _ expression refl
    Closed-encode_primitive level u16 depth = through value_expr _ _ _ expression refl
    Closed-encode_primitive level u32 depth = through value_expr _ _ _ expression refl
    Closed-encode_primitive level u64 depth = through value_expr _ _ _ expression refl
    Closed-encode_primitive level f32 depth = through value_expr _ _ _ expression refl
    Closed-encode_primitive level f64 depth = through value_expr _ _ _ expression refl
    Closed-encode_primitive level string depth = through value_expr _ _ _ expression refl
    Closed-encode_primitive level bytes depth = through value_expr _ _ _ expression refl

    Closes-encode_nested : (level : ℕ) (s : IrStruct) → Closes (encode_nested level value_expr s)
    unfolding encode_nested indentation nesting depth_after
    Closes-encode_nested level s depth = through value_expr _ _ _ expression refl

    Closes-unimplemented : (level : ℕ) (f : IrField) → Closes (encode_unimplemented level f)
    unfolding encode_unimplemented indentation nesting depth_after
    Closes-unimplemented level f depth = refl

    Closes-encode_field_value :
        (level : ℕ) (f : IrField) (type : AstType)
        → Closes (encode_field_value struct_lookup level f type value_expr)
    unfolding encode_field_value indentation nesting depth_after
    Closes-encode_field_value level f (primitive kind) depth =
        through (encode_primitive level value_expr kind) _ _ _ (Closed-encode_primitive level kind)
          refl
    Closes-encode_field_value level f (user_type user) depth =
        by_struct (find_struct struct_lookup user)
      where
        by_struct :
            (o : Option IrStruct)
            → nesting
                (elim o [
                  | none ↦ encode_unimplemented level f
                  | some s ↦ encode_nested level value_expr s
                ])
                (suc depth)
              ≡ some depth
        by_struct none = Closes-unimplemented level f depth
        by_struct (some s) = Closes-encode_nested level s depth
    Closes-encode_field_value level f (vector_of element) depth = Closes-unimplemented level f depth
    Closes-encode_field_value level f (map_of key value) depth = Closes-unimplemented level f depth
    Closes-encode_field_value level f (optional_of inner) depth = Closes-unimplemented level f depth

  Closed-inner : Closed (literal "inner" ∷ [])
  unfolding nesting depth_after
  Closed-inner depth = refl

  pub Closed-emit_encode :
      (level : ℕ) (f : IrField) (type : AstType) (value_expr : Text)
      → Closed value_expr
      → Closed (emit_encode_field_value struct_lookup level f type value_expr)
  unfolding emit_encode_field_value indentation decimal nesting depth_after
  Closed-emit_encode level f (optional_of inner) value_expr expression depth =
      through value_expr _ _ _ expression (
        through value_expr _ _ _ expression (
          through (emit_encode_field_value struct_lookup (level + 1) f inner (literal "inner" ∷ []))
            _ _ _ (Closed-emit_encode (level + 1) f inner (literal "inner" ∷ []) Closed-inner)
            refl))
  Closed-emit_encode level f (primitive kind) value_expr expression depth =
      through (wire_type_literal (describe_type (primitive kind)).wire_type) _ _ _
        (Closed-wire_type_literal _)
        (Closes-encode_field_value value_expr expression level f (primitive kind) depth)
  Closed-emit_encode level f (user_type user) value_expr expression depth =
      through (wire_type_literal (describe_type (user_type user)).wire_type) _ _ _
        (Closed-wire_type_literal _)
        (Closes-encode_field_value value_expr expression level f (user_type user) depth)
  Closed-emit_encode level f (vector_of element) value_expr expression depth =
      through (wire_type_literal (describe_type (vector_of element)).wire_type) _ _ _
        (Closed-wire_type_literal _)
        (Closes-encode_field_value value_expr expression level f (vector_of element) depth)
  Closed-emit_encode level f (map_of key value) value_expr expression depth =
      through (wire_type_literal (describe_type (map_of key value)).wire_type) _ _ _
        (Closed-wire_type_literal _)
        (Closes-encode_field_value value_expr expression level f (map_of key value) depth)

  module _ (target_expr field_value_expr : Text) (target : Closed target_expr)
      (field_value : Closed field_value_expr) where
    target_of :
        (rest : Text) (depth : ℕ) (after : Option ℕ)
        → nesting rest depth ≡ after
        → nesting (target_expr ++ rest) depth ≡ after
    target_of rest depth after next = through target_expr rest depth after target next

    value_of :
        (rest : Text) (depth : ℕ) (after : Option ℕ)
        → nesting rest depth ≡ after
        → nesting (field_value_expr ++ rest) depth ≡ after
    value_of rest depth after next = through field_value_expr rest depth after field_value next

    Closed-decode_signed :
        (level : ℕ) (type : AstType)
        → Closed (decode_signed level type target_expr field_value_expr)
    unfolding decode_signed indentation nesting depth_after
    Closed-decode_signed level type depth =
        target_of _ _ _ (through (map_type type) _ _ _ (Closed-map_type type) (value_of _ _ _ refl))

    Closed-decode_unsigned :
        (level : ℕ) (type : AstType)
        → Closed (decode_unsigned level type target_expr field_value_expr)
    unfolding decode_unsigned indentation nesting depth_after
    Closed-decode_unsigned level type depth =
        target_of _ _ _ (through (map_type type) _ _ _ (Closed-map_type type) (value_of _ _ _ refl))

    Closed-decode_primitive :
        (level : ℕ) (type : AstType) (kind : PrimitiveKind)
        → Closed (decode_primitive level type target_expr field_value_expr kind)
    unfolding decode_primitive indentation nesting depth_after
    Closed-decode_primitive level type bool depth = target_of _ _ _ (value_of _ _ _ refl)
    Closed-decode_primitive level type i8 depth = Closed-decode_signed level type depth
    Closed-decode_primitive level type i16 depth = Closed-decode_signed level type depth
    Closed-decode_primitive level type i32 depth = Closed-decode_signed level type depth
    Closed-decode_primitive level type i64 depth = Closed-decode_signed level type depth
    Closed-decode_primitive level type u8 depth = Closed-decode_unsigned level type depth
    Closed-decode_primitive level type u16 depth = Closed-decode_unsigned level type depth
    Closed-decode_primitive level type u32 depth = Closed-decode_unsigned level type depth
    Closed-decode_primitive level type u64 depth = Closed-decode_unsigned level type depth
    Closed-decode_primitive level type f32 depth = value_of _ _ _ (target_of _ _ _ refl)
    Closed-decode_primitive level type f64 depth = value_of _ _ _ (target_of _ _ _ refl)
    Closed-decode_primitive level type string depth = target_of _ _ _ (value_of _ _ _ refl)
    Closed-decode_primitive level type bytes depth = target_of _ _ _ (value_of _ _ _ refl)

    Closed-decode_nested :
        (level : ℕ) (s : IrStruct) → Closed (decode_nested level target_expr field_value_expr s)
    unfolding decode_nested indentation nesting depth_after
    Closed-decode_nested level s depth = value_of _ _ _ (value_of _ _ _ (target_of _ _ _ refl))

    Closed-decode_unimplemented : (level : ℕ) (f : IrField) → Closed (decode_unimplemented level f)
    unfolding decode_unimplemented indentation nesting depth_after
    Closed-decode_unimplemented level f depth = refl

    Closed-decode_field_value :
        (level : ℕ) (f : IrField) (type actual : AstType)
        → Closed (decode_field_value struct_lookup level f type target_expr field_value_expr actual)
    unfolding decode_field_value
    Closed-decode_field_value level f type (primitive kind) =
        Closed-decode_primitive level type kind
    Closed-decode_field_value level f type (user_type user) =
        by_struct (find_struct struct_lookup user)
      where
        by_struct :
            (o : Option IrStruct)
            → Closed (elim o [
              | none ↦ decode_unimplemented level f
              | some s ↦ decode_nested level target_expr field_value_expr s
            ])
        by_struct none = Closed-decode_unimplemented level f
        by_struct (some s) = Closed-decode_nested level s
    Closed-decode_field_value level f type (vector_of element) = Closed-decode_unimplemented level f
    Closed-decode_field_value level f type (map_of key value) = Closed-decode_unimplemented level f
    Closed-decode_field_value level f type (optional_of inner) = Closed-decode_unimplemented level f

    pub Closed-emit_decode :
        (level : ℕ) (f : IrField) (type : AstType)
        → Closed (emit_decode_field_value struct_lookup level f type target_expr field_value_expr)
    unfolding emit_decode_field_value
    Closed-emit_decode level f type =
        Closed-decode_field_value level f type (unwrap_optional_type type)
