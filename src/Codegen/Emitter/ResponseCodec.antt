-- ===== src/Codegen/Emitter/ResponseCodec.antt =====
-- src/codegen/emitter.cpp: the functions that encode and decode the results of a method.
use hasten.Common.{ℕ, ◌+◌, List, [], ◌∷◌, ◌++◌, length}
use hasten.Codegen.Ir.{IrField, IrStruct, IrMethod, IrInterface}
use hasten.Codegen.Emitter.{Text, literal, computed, indentation, decimal, concat}
use hasten.Codegen.Emitter.Names.{method_helper_prefix}
use hasten.Codegen.Emitter.Types.{method_result_type}
use hasten.Codegen.Emitter.Fields.{emit_encode_field_value, emit_decode_field_value}
use hasten.Codegen.Emitter.StructCodec.{presence_name, unless_optional}
use hasten.Codegen.Emitter.Metadata.{response_fields}

unfoldable pub response_encode_field : List IrStruct → ℕ → IrField → Text
response_encode_field struct_lookup indent_level f =
    emit_encode_field_value struct_lookup (indent_level + 1) f f.type
      (literal "value." ∷ computed f.name ∷ [])

unfoldable pub response_encoder : List IrStruct → ℕ → IrInterface → IrMethod → Text
response_encoder struct_lookup indent_level iface m =
    indentation indent_level
    ∷ literal "inline hasten::runtime::Result<void> "
    ∷ literal "encode_"
    ∷ computed (method_helper_prefix iface.name m.name)
    ∷ literal "_response"
    ∷ literal "(hasten::runtime::hb1::Writer& writer, const "
    ∷ (method_result_type iface.name m
        ++ (literal "& value)\n"
            ∷ indentation indent_level
            ∷ literal "{\n"
            ∷ indentation indent_level
            ∷ indentation 1
            ∷ literal "std::vector<hasten::runtime::hb1::FieldValue> values;\n"
            ∷ indentation indent_level
            ∷ indentation 1
            ∷ literal "values.reserve("
            ∷ decimal (length (response_fields "value" m))
            ∷ literal ");\n"
            ∷ (concat (response_encode_field struct_lookup indent_level) (response_fields "value" m)
                ++ (indentation indent_level
                    ∷ indentation 1
                    ∷ literal "hasten::runtime::hb1::MessageDescriptor descriptor{"
                    ∷ computed iface.name
                    ∷ literal "Metadata::"
                    ∷ computed m.name
                    ∷ literal "Metadata::ResponseFields"
                    ∷ literal "};\n"
                    ∷ indentation indent_level
                    ∷ indentation 1
                    ∷ literal
                        "return hasten::runtime::hb1::encode_message(descriptor, values, writer);\n"
                    ∷ indentation indent_level
                    ∷ literal "}\n\n"
                    ∷ []))))

unfoldable pub response_presence_line : ℕ → IrField → Text
response_presence_line indent_level f =
    indentation indent_level
    ∷ indentation 1
    ∷ literal "bool "
    ∷ computed (presence_name f.name)
    ∷ literal " = false;\n"
    ∷ []

unfoldable pub response_presence : ℕ → IrField → Text
response_presence indent_level f = unless_optional f.type (response_presence_line indent_level f)

unfoldable pub response_present : ℕ → IrField → Text
response_present indent_level f =
    indentation (indent_level + 3) ∷ computed (presence_name f.name) ∷ literal " = true;\n" ∷ []

unfoldable pub response_case : List IrStruct → ℕ → IrField → Text
response_case struct_lookup indent_level f =
    indentation indent_level
    ∷ indentation 1
    ∷ literal "        case "
    ∷ decimal f.id
    ∷ literal ": {\n"
    ∷ (emit_decode_field_value struct_lookup (indent_level + 3) f f.type
          (literal "value." ∷ computed f.name ∷ []) (literal "field_value" ∷ [])
        ++ (unless_optional f.type (response_present indent_level f)
            ++ (indentation indent_level
                ∷ indentation 1
                ∷ literal "            break;\n"
                ∷ indentation indent_level
                ∷ indentation 1
                ∷ literal "        }\n"
                ∷ [])))

unfoldable pub response_missing_field : ℕ → IrInterface → IrMethod → IrField → Text
response_missing_field indent_level iface m f =
    indentation indent_level
    ∷ indentation 1
    ∷ literal "if (!"
    ∷ computed (presence_name f.name)
    ∷ literal ") {\n"
    ∷ indentation indent_level
    ∷ indentation 1
    ∷ literal "    return hasten::runtime::unexpected_result<"
    ∷ (method_result_type iface.name m
        ++ (literal ">(hasten::runtime::ErrorCode::TransportError, \"missing response field "
            ∷ computed f.name
            ∷ literal "\");\n"
            ∷ indentation indent_level
            ∷ indentation 1
            ∷ literal "}\n"
            ∷ []))

unfoldable pub response_missing : ℕ → IrInterface → IrMethod → IrField → Text
response_missing indent_level iface m f =
    unless_optional f.type (response_missing_field indent_level iface m f)

unfoldable pub response_decoder : List IrStruct → ℕ → IrInterface → IrMethod → Text
response_decoder struct_lookup indent_level iface m =
    indentation indent_level
    ∷ literal "inline hasten::runtime::Result<"
    ∷ (method_result_type iface.name m
        ++ (literal "> "
            ∷ literal "decode_"
            ∷ computed (method_helper_prefix iface.name m.name)
            ∷ literal "_response"
            ∷ literal "(std::span<const std::uint8_t> bytes)\n"
            ∷ indentation indent_level
            ∷ literal "{\n"
            ∷ indentation indent_level
            ∷ indentation 1
            ∷ (method_result_type iface.name m
                ++ (literal " value{};\n"
                    ∷ (concat (response_presence indent_level) (response_fields "value" m)
                        ++ (indentation indent_level
                            ∷ indentation 1
                            ∷ literal "hasten::runtime::SpanSource source{bytes};\n"
                            ∷ indentation indent_level
                            ∷ indentation 1
                            ∷ literal "hasten::runtime::hb1::Reader reader{source};\n"
                            ∷ indentation indent_level
                            ∷ indentation 1
                            ∷ literal "auto decoded = hasten::runtime::hb1::decode_message({"
                            ∷ computed iface.name
                            ∷ literal "Metadata::"
                            ∷ computed m.name
                            ∷ literal "Metadata::ResponseFields"
                            ∷ literal "}, reader);\n"
                            ∷ indentation indent_level
                            ∷ indentation 1
                            ∷ literal "if (!decoded) {\n"
                            ∷ indentation indent_level
                            ∷ indentation 1
                            ∷ literal "    return std::unexpected(decoded.error());\n"
                            ∷ indentation indent_level
                            ∷ indentation 1
                            ∷ literal "}\n"
                            ∷ indentation indent_level
                            ∷ indentation 1
                            ∷ literal "for (const auto& field_value : *decoded) {\n"
                            ∷ indentation indent_level
                            ∷ indentation 1
                            ∷ literal "    switch (field_value.id) {\n"
                            ∷ (concat (response_case struct_lookup indent_level)
                                  (response_fields "value" m)
                                ++ (indentation indent_level
                                    ∷ indentation 1
                                    ∷ literal "        default: break;\n"
                                    ∷ indentation indent_level
                                    ∷ indentation 1
                                    ∷ literal "    }\n"
                                    ∷ indentation indent_level
                                    ∷ literal "    }\n"
                                    ∷ (concat (response_missing indent_level iface m)
                                          (response_fields "value" m)
                                        ++ (indentation indent_level
                                            ∷ indentation 1
                                            ∷ literal "return value;\n"
                                            ∷ indentation indent_level
                                            ∷ literal "}\n\n"
                                            ∷ []))))))))))
