-- ===== src/Codegen/Emitter/Fields/Decoding.antt =====
-- src/codegen/emitter.cpp: the code that takes the value of a field out of a message.
use hasten.Common.{ℕ, ◌+◌, List, [], ◌∷◌, ◌++◌, none, some}
use hasten.Idl.Ast.{
  PrimitiveKind, bool, i8, i16, i32, i64, u8, u16, u32, u64, f32, f64, string, bytes, AstType,
  primitive, user_type,
}
use hasten.Codegen.Ir.{IrField, IrStruct}
use hasten.Codegen.Emitter.{Text, literal, computed, indentation}
use hasten.Codegen.Emitter.Names.{decode_struct_helper}
use hasten.Codegen.Emitter.Types.{map_type, find_struct, unwrap_optional_type}

unfoldable pub decode_signed : ℕ → AstType → Text → Text → Text
decode_signed indent_level type target_expr field_value_expr =
    indentation indent_level
    ∷ (target_expr
        ++ (literal " = static_cast<"
            ∷ (map_type type
                ++ (literal ">("
                    ∷ (field_value_expr ++ (literal ".value.signed_value);\n" ∷ []))))))

unfoldable pub decode_unsigned : ℕ → AstType → Text → Text → Text
decode_unsigned indent_level type target_expr field_value_expr =
    indentation indent_level
    ∷ (target_expr
        ++ (literal " = static_cast<"
            ∷ (map_type type
                ++ (literal ">("
                    ∷ (field_value_expr ++ (literal ".value.unsigned_value);\n" ∷ []))))))

-- The cases of the switch of `emit_decode_field_value`; `type` is the whole type of the field.
unfoldable pub decode_primitive : ℕ → AstType → Text → Text → PrimitiveKind → Text
decode_primitive indent_level type target_expr field_value_expr bool =
    indentation indent_level
    ∷ (target_expr
        ++ (literal " = (" ∷ (field_value_expr ++ (literal ".value.unsigned_value != 0);\n" ∷ []))))
decode_primitive indent_level type target_expr field_value_expr i8 =
    decode_signed indent_level type target_expr field_value_expr
decode_primitive indent_level type target_expr field_value_expr i16 =
    decode_signed indent_level type target_expr field_value_expr
decode_primitive indent_level type target_expr field_value_expr i32 =
    decode_signed indent_level type target_expr field_value_expr
decode_primitive indent_level type target_expr field_value_expr i64 =
    decode_signed indent_level type target_expr field_value_expr
decode_primitive indent_level type target_expr field_value_expr u8 =
    decode_unsigned indent_level type target_expr field_value_expr
decode_primitive indent_level type target_expr field_value_expr u16 =
    decode_unsigned indent_level type target_expr field_value_expr
decode_primitive indent_level type target_expr field_value_expr u32 =
    decode_unsigned indent_level type target_expr field_value_expr
decode_primitive indent_level type target_expr field_value_expr u64 =
    decode_unsigned indent_level type target_expr field_value_expr
decode_primitive indent_level type target_expr field_value_expr f32 =
    indentation indent_level
    ∷ literal "std::uint32_t bits32 = static_cast<std::uint32_t>("
    ∷ (field_value_expr
        ++ (literal ".value.unsigned_value);\n"
            ∷ indentation indent_level
            ∷ literal "float decoded32 = 0.0f;\n"
            ∷ indentation indent_level
            ∷ literal "std::memcpy(&decoded32, &bits32, sizeof(decoded32));\n"
            ∷ indentation indent_level
            ∷ (target_expr ++ (literal " = decoded32;\n" ∷ []))))
decode_primitive indent_level type target_expr field_value_expr f64 =
    indentation indent_level
    ∷ literal "std::uint64_t bits64 = "
    ∷ (field_value_expr
        ++ (literal ".value.unsigned_value;\n"
            ∷ indentation indent_level
            ∷ literal "double decoded64 = 0.0;\n"
            ∷ indentation indent_level
            ∷ literal "std::memcpy(&decoded64, &bits64, sizeof(decoded64));\n"
            ∷ indentation indent_level
            ∷ (target_expr ++ (literal " = decoded64;\n" ∷ []))))
decode_primitive indent_level type target_expr field_value_expr string =
    indentation indent_level
    ∷ (target_expr ++ (literal " = " ∷ (field_value_expr ++ (literal ".value.text;\n" ∷ []))))
decode_primitive indent_level type target_expr field_value_expr bytes =
    indentation indent_level
    ∷ (target_expr ++ (literal " = " ∷ (field_value_expr ++ (literal ".value.bytes;\n" ∷ []))))

unfoldable pub decode_nested : ℕ → Text → Text → IrStruct → Text
decode_nested indent_level target_expr field_value_expr s =
    indentation indent_level
    ∷ literal "{\n"
    ∷ indentation (indent_level + 1)
    ∷ literal "auto decoded = "
    ∷ computed (decode_struct_helper s.name)
    ∷ literal "(std::span<const std::uint8_t>("
    ∷ (field_value_expr
        ++ (literal ".value.bytes.data(), "
            ∷ (field_value_expr
                ++ (literal ".value.bytes.size()));\n"
                    ∷ indentation (indent_level + 1)
                    ∷ literal "if (!decoded) {\n"
                    ∷ indentation (indent_level + 1)
                    ∷ literal "    return std::unexpected(decoded.error());\n"
                    ∷ indentation (indent_level + 1)
                    ∷ literal "}\n"
                    ∷ indentation (indent_level + 1)
                    ∷ (target_expr
                        ++ (literal " = std::move(*decoded);\n"
                            ∷ indentation indent_level
                            ∷ literal "}\n"
                            ∷ []))))))

unfoldable pub decode_unimplemented : ℕ → IrField → Text
decode_unimplemented indent_level f =
    indentation indent_level
    ∷ literal
        "return hasten::runtime::unimplemented_result(\"HB1 decode not implemented for field ''"
    ∷ computed f.name
    ∷ literal "''\");\n"
    ∷ []

unfoldable pub decode_field_value :
    List IrStruct → ℕ → IrField → AstType → Text → Text → AstType → Text
decode_field_value struct_lookup indent_level f type target_expr field_value_expr (primitive kind) =
    decode_primitive indent_level type target_expr field_value_expr kind
decode_field_value struct_lookup indent_level f type target_expr field_value_expr (user_type user) =
    elim (find_struct struct_lookup user) [
      | none ↦ decode_unimplemented indent_level f
      | some s ↦ decode_nested indent_level target_expr field_value_expr s
    ]
decode_field_value struct_lookup indent_level f type target_expr field_value_expr _ =
    decode_unimplemented indent_level f

unfoldable pub emit_decode_field_value : List IrStruct → ℕ → IrField → AstType → Text → Text → Text
emit_decode_field_value struct_lookup indent_level f type target_expr field_value_expr =
    decode_field_value struct_lookup indent_level f type target_expr field_value_expr
      (unwrap_optional_type type)
