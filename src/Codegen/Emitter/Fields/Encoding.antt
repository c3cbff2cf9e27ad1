-- ===== src/Codegen/Emitter/Fields/Encoding.antt =====
-- src/codegen/emitter.cpp: the code that puts the value of a field into a message.
use hasten.Common.{ℕ, ◌+◌, List, [], ◌∷◌, ◌++◌, none, some}
use hasten.Idl.Ast.{
  PrimitiveKind, bool, i8, i16, i32, i64, u8, u16, u32, u64, f32, f64, string, bytes, AstType,
  primitive, user_type, optional_of,
}
use hasten.Codegen.Ir.{IrField, IrStruct}
use hasten.Codegen.Emitter.{Text, literal, computed, indentation, decimal}
use hasten.Codegen.Emitter.Names.{encode_struct_helper}
use hasten.Codegen.Emitter.Types.{find_struct, describe_type, wire_type_literal}

unfoldable pub encode_signed : ℕ → Text → Text
encode_signed indent_level value_expr =
    indentation (indent_level + 1)
    ∷ literal
        "field_value.value = hasten::runtime::hb1::Value::make_signed(static_cast<std::int64_t>("
    ∷ (value_expr ++ (literal "));\n" ∷ []))

unfoldable pub encode_unsigned : ℕ → Text → Text
encode_unsigned indent_level value_expr =
    indentation (indent_level + 1)
    ∷ literal
        "field_value.value = hasten::runtime::hb1::Value::make_unsigned(static_cast<std::uint64_t>("
    ∷ (value_expr ++ (literal "));\n" ∷ []))

-- The cases of the switch of `emit_encode_field_value`.
unfoldable pub encode_primitive : ℕ → Text → PrimitiveKind → Text
encode_primitive indent_level value_expr bool =
    indentation (indent_level + 1)
    ∷ literal "field_value.value = hasten::runtime::hb1::Value::make_unsigned(("
    ∷ (value_expr ++ (literal ") ? 1 : 0);\n" ∷ []))
encode_primitive indent_level value_expr i8 = encode_signed indent_level value_expr
encode_primitive indent_level value_expr i16 = encode_signed indent_level value_expr
encode_primitive indent_level value_expr i32 = encode_signed indent_level value_expr
encode_primitive indent_level value_expr i64 = encode_signed indent_level value_expr
encode_primitive indent_level value_expr u8 = encode_unsigned indent_level value_expr
encode_primitive indent_level value_expr u16 = encode_unsigned indent_level value_expr
encode_primitive indent_level value_expr u32 = encode_unsigned indent_level value_expr
encode_primitive indent_level value_expr u64 = encode_unsigned indent_level value_expr
encode_primitive indent_level value_expr f32 =
    indentation (indent_level + 1)
    ∷ literal "std::uint32_t bits = 0;\n"
    ∷ indentation (indent_level + 1)
    ∷ literal "std::memcpy(&bits, &"
    ∷ (value_expr
        ++ (literal ", sizeof(bits));\n"
            ∷ indentation (indent_level + 1)
            ∷ literal "field_value.value = hasten::runtime::hb1::Value::make_unsigned(bits);\n"
            ∷ []))
encode_primitive indent_level value_expr f64 =
    indentation (indent_level + 1)
    ∷ literal "std::uint64_t bits = 0;\n"
    ∷ indentation (indent_level + 1)
    ∷ literal "std::memcpy(&bits, &"
    ∷ (value_expr
        ++ (literal ", sizeof(bits));\n"
            ∷ indentation (indent_level + 1)
            ∷ literal "field_value.value = hasten::runtime::hb1::Value::make_unsigned(bits);\n"
            ∷ []))
encode_primitive indent_level value_expr string =
    indentation (indent_level + 1)
    ∷ literal "field_value.value = hasten::runtime::hb1::Value::make_string("
    ∷ (value_expr ++ (literal ");\n" ∷ []))
encode_primitive indent_level value_expr bytes =
    indentation (indent_level + 1)
    ∷ literal "field_value.value = hasten::runtime::hb1::Value::make_bytes("
    ∷ (value_expr ++ (literal ");\n" ∷ []))

-- What is emitted for a structure of the module.
unfoldable pub encode_nested : ℕ → Text → IrStruct → Text
encode_nested indent_level value_expr s =
    indentation (indent_level + 1)
    ∷ literal "std::vector<std::uint8_t> nested_buffer;\n"
    ∷ indentation (indent_level + 1)
    ∷ literal "hasten::runtime::VectorSink nested_sink{nested_buffer};\n"
    ∷ indentation (indent_level + 1)
    ∷ literal "hasten::runtime::hb1::Writer nested_writer{nested_sink};\n"
    ∷ indentation (indent_level + 1)
    ∷ literal "if (auto res = "
    ∷ computed (encode_struct_helper s.name)
    ∷ literal "("
    ∷ (value_expr
        ++ (literal ", nested_writer); !res) {\n"
            ∷ indentation (indent_level + 1)
            ∷ literal "    return res;\n"
            ∷ indentation (indent_level + 1)
            ∷ literal "}\n"
            ∷ indentation (indent_level + 1)
            ∷ literal
                "field_value.value = hasten::runtime::hb1::Value::make_bytes(std::move(nested_buffer));\n"
            ∷ indentation (indent_level + 1)
            ∷ literal "values.push_back(std::move(field_value));\n"
            ∷ indentation indent_level
            ∷ literal "}\n"
            ∷ []))

unfoldable pub encode_unimplemented : ℕ → IrField → Text
encode_unimplemented indent_level f =
    indentation (indent_level + 1)
    ∷ literal
        "return hasten::runtime::unimplemented_result(\"HB1 encode not implemented for field ''"
    ∷ computed f.name
    ∷ literal "''\");\n"
    ∷ indentation indent_level
    ∷ literal "}\n"
    ∷ []

-- Behind the common lines: by the kind of the type, which is no optional.
unfoldable pub encode_field_value : List IrStruct → ℕ → IrField → AstType → Text → Text
encode_field_value struct_lookup indent_level f (primitive kind) value_expr =
    encode_primitive indent_level value_expr kind
    ++ (indentation (indent_level + 1)
        ∷ literal "values.push_back(std::move(field_value));\n"
        ∷ indentation indent_level
        ∷ literal "}\n"
        ∷ [])
encode_field_value struct_lookup indent_level f (user_type user) value_expr =
    elim (find_struct struct_lookup user) [
      | none ↦ encode_unimplemented indent_level f
      | some s ↦ encode_nested indent_level value_expr s
    ]
encode_field_value struct_lookup indent_level f _ value_expr = encode_unimplemented indent_level f

-- `emit_encode_field_value`
unfoldable pub emit_encode_field_value : List IrStruct → ℕ → IrField → AstType → Text → Text
emit_encode_field_value struct_lookup indent_level f (optional_of inner) value_expr =
    indentation indent_level
    ∷ literal "if ("
    ∷ (value_expr
        ++ (literal ") {\n"
            ∷ indentation indent_level
            ∷ literal "    auto&& inner = *"
            ∷ (value_expr
                ++ (literal ";\n"
                    ∷ (emit_encode_field_value struct_lookup (indent_level + 1) f inner
                          (literal "inner" ∷ [])
                        ++ (indentation indent_level ∷ literal "}\n" ∷ []))))))
emit_encode_field_value struct_lookup indent_level f type value_expr =
    indentation indent_level
    ∷ literal "{\n"
    ∷ indentation (indent_level + 1)
    ∷ literal "hasten::runtime::hb1::FieldValue field_value;\n"
    ∷ indentation (indent_level + 1)
    ∷ literal "field_value.id = "
    ∷ decimal f.id
    ∷ literal ";\n"
    ∷ indentation (indent_level + 1)
    ∷ literal "field_value.wire_type = "
    ∷ (wire_type_literal (describe_type type).wire_type
        ++ (literal ";\n" ∷ encode_field_value struct_lookup indent_level f type value_expr))
