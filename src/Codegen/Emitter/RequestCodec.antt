-- ===== src/Codegen/Emitter/RequestCodec.antt =====
-- src/codegen/emitter.cpp: the functions that encode and decode the parameters of a method.
use hasten.Common.{ℕ, ◌+◌, List, [], ◌∷◌, ◌++◌, length}
use hasten.Codegen.Ir.{IrField, IrStruct, IrMethod, IrInterface}
use hasten.Codegen.Emitter.{Text, literal, computed, indentation, decimal, concat}
use hasten.Codegen.Emitter.Names.{method_helper_prefix}
use hasten.Codegen.Emitter.Types.{map_type}
use hasten.Codegen.Emitter.Fields.{emit_encode_field_value, emit_decode_field_value}
use hasten.Codegen.Emitter.StructCodec.{presence_name, unless_optional}

unfoldable pub request_parameter : IrField → Text
request_parameter f =
    literal ", const " ∷ (map_type f.type ++ (literal "& " ∷ computed f.name ∷ []))

unfoldable pub request_encode_field : List IrStruct → ℕ → IrField → Text
request_encode_field struct_lookup indent_level f =
    emit_encode_field_value struct_lookup (indent_level + 1) f f.type (computed f.name ∷ [])

unfoldable pub request_encoder : List IrStruct → ℕ → IrInterface → IrMethod → Text
request_encoder struct_lookup indent_level iface m =
    indentation indent_level
    ∷ literal "inline hasten::runtime::Result<void> "
    ∷ literal "encode_"
    ∷ computed (method_helper_prefix iface.name m.name)
    ∷ literal "_request"
    ∷ literal "(hasten::runtime::hb1::Writer& writer"
    ∷ (concat request_parameter m.parameters
        ++ (literal ")\n"
            ∷ indentation indent_level
            ∷ literal "{\n"
            ∷ indentation indent_level
            ∷ indentation 1
            ∷ literal "std::vector<hasten::runtime::hb1::FieldValue> values;\n"
            ∷ indentation indent_level
            ∷ indentation 1
            ∷ literal "values.reserve("
            ∷ decimal (length m.parameters)
            ∷ literal ");\n"
            ∷ (concat (request_encode_field struct_lookup indent_level) m.parameters
                ++ (indentation indent_level
                    ∷ indentation 1
                    ∷ literal "hasten::runtime::hb1::MessageDescriptor descriptor{"
                    ∷ computed iface.name
                    ∷ literal "Metadata::"
                    ∷ computed m.name
                    ∷ literal "Metadata::RequestFields"
                    ∷ literal "};\n"
                    ∷ indentation indent_level
                    ∷ indentation 1
                    ∷ literal
                        "return hasten::runtime::hb1::encode_message(descriptor, values, writer);\n"
                    ∷ indentation indent_level
                    ∷ literal "}\n\n"
                    ∷ []))))

unfoldable pub request_struct_field : ℕ → IrField → Text
request_struct_field indent_level f =
    indentation indent_level
    ∷ indentation 1
    ∷ (map_type f.type ++ (literal " " ∷ computed f.name ∷ literal ";\n" ∷ []))

unfoldable pub request_struct : ℕ → IrInterface → IrMethod → Text
request_struct indent_level iface m =
    indentation indent_level
    ∷ literal "struct "
    ∷ computed (method_helper_prefix iface.name m.name)
    ∷ literal "Request"
    ∷ literal " {\n"
    ∷ (concat (request_struct_field indent_level) m.parameters
        ++ (indentation indent_level ∷ literal "};\n\n" ∷ []))

unfoldable pub request_presence_line : ℕ → IrField → Text
request_presence_line indent_level f =
    indentation indent_level
    ∷ indentation 1
    ∷ literal "bool "
    ∷ computed (presence_name f.name)
    ∷ literal " = false;\n"
    ∷ []

unfoldable pub request_presence : ℕ → IrField → Text
request_presence indent_level f = unless_optional f.type (request_presence_line indent_level f)

unfoldable pub request_present : ℕ → IrField → Text
request_present indent_level f =
    indentation (indent_level + 3) ∷ computed (presence_name f.name) ∷ literal " = true;\n" ∷ []

unfoldable pub request_case : List IrStruct → ℕ → IrField → Text
request_case struct_lookup indent_level f =
    indentation indent_level
    ∷ indentation 1
    ∷ literal "        case "
    ∷ decimal f.id
    ∷ literal ": {\n"
    ∷ (emit_decode_field_value struct_lookup (indent_level + 3) f f.type
          (literal "request." ∷ computed f.name ∷ []) (literal "field_value" ∷ [])
        ++ (unless_optional f.type (request_present indent_level f)
            ++ (indentation indent_level
                ∷ indentation 1
                ∷ literal "            break;\n"
                ∷ indentation indent_level
                ∷ indentation 1
                ∷ literal "        }\n"
                ∷ [])))

unfoldable pub request_missing_field : ℕ → IrInterface → IrMethod → IrField → Text
request_missing_field indent_level iface m f =
    indentation indent_level
    ∷ indentation 1
    ∷ literal "if (!"
    ∷ computed (presence_name f.name)
    ∷ literal ") {\n"
    ∷ indentation indent_level
    ∷ indentation 1
    ∷ literal "    return hasten::runtime::unexpected_result<"
    ∷ computed (method_helper_prefix iface.name m.name)
    ∷ literal "Request"
    ∷ literal ">(hasten::runtime::ErrorCode::TransportError, \"missing parameter "
    ∷ computed f.name
    ∷ literal "\");\n"
    ∷ indentation indent_level
    ∷ indentation 1
    ∷ literal "}\n"
    ∷ []

unfoldable pub request_missing : ℕ → IrInterface → IrMethod → IrField → Text
request_missing indent_level iface m f =
    unless_optional f.type (request_missing_field indent_level iface m f)

unfoldable pub request_decoder : List IrStruct → ℕ → IrInterface → IrMethod → Text
request_decoder struct_lookup indent_level iface m =
    indentation indent_level
    ∷ literal "inline hasten::runtime::Result<"
    ∷ computed (method_helper_prefix iface.name m.name)
    ∷ literal "Request"
    ∷ literal "> "
    ∷ literal "decode_"
    ∷ computed (method_helper_prefix iface.name m.name)
    ∷ literal "_request"
    ∷ literal "(std::span<const std::uint8_t> bytes)\n"
    ∷ indentation indent_level
    ∷ literal "{\n"
    ∷ indentation indent_level
    ∷ indentation 1
    ∷ computed (method_helper_prefix iface.name m.name)
    ∷ literal "Request"
    ∷ literal " request{};\n"
    ∷ (concat (request_presence indent_level) m.parameters
        ++ (indentation indent_level
            ∷ indentation 1
            ∷ literal "hasten::runtime::SpanSource source{bytes};\n"
            ∷ indentation indent_level
            ∷ indentation 1
            ∷ literal "hasten::runtime::hb1::Reader reader{source};\n"
            ∷ indentation indent_level
            ∷ indentation 1
            ∷ literal "auto decoded = hasten::runtime::hb1::decode_message({"
            ∷ computed iface.name
            ∷ literal "Metadata::"
            ∷ computed m.name
            ∷ literal "Metadata::RequestFields"
            ∷ literal "}, reader);\n"
            ∷ indentation indent_level
            ∷ indentation 1
            ∷ literal "if (!decoded) {\n"
            ∷ indentation indent_level
            ∷ indentation 1
            ∷ literal "    return std::unexpected(decoded.error());\n"
            ∷ indentation indent_level
            ∷ indentation 1
            ∷ literal "}\n"
            ∷ indentation indent_level
            ∷ indentation 1
            ∷ literal "for (const auto& field_value : *decoded) {\n"
            ∷ indentation indent_level
            ∷ indentation 1
            ∷ literal "    switch (field_value.id) {\n"
            ∷ (concat (request_case struct_lookup indent_level) m.parameters
                ++ (indentation indent_level
                    ∷ indentation 1
                    ∷ literal "        default: break;\n"
                    ∷ indentation indent_level
                    ∷ indentation 1
                    ∷ literal "    }\n"
                    ∷ indentation indent_level
                    ∷ literal "    }\n"
                    ∷ (concat (request_missing indent_level iface m) m.parameters
                        ++ (indentation indent_level
                            ∷ indentation 1
                            ∷ literal "return request;\n"
                            ∷ indentation indent_level
                            ∷ literal "}\n\n"
                            ∷ []))))))
