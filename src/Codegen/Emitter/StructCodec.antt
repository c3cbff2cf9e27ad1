-- ===== src/Codegen/Emitter/StructCodec.antt =====
-- src/codegen/emitter.cpp: the functions that encode and decode a structure.
use Prim.Native.String as String
use Prim.Native.String.{String}
use hasten.Common.{ℕ, ◌+◌, List, [], ◌∷◌, ◌++◌, length}
use hasten.Idl.Ast.{AstType, optional_of}
use hasten.Codegen.Ir.{IrField, IrStruct, IrModule}
use hasten.Codegen.Emitter.{Text, literal, computed, indentation, decimal, concat}
use hasten.Codegen.Emitter.Names.{
  sanitize_identifier, qualified_symbol, encode_struct_helper, decode_struct_helper,
}
use hasten.Codegen.Emitter.Fields.{emit_encode_field_value, emit_decode_field_value}

pub presence_name : String → String
presence_name field_name = sanitize_identifier (String.◌++◌ "has_" field_name)

-- `if (!optional)`, for the type of a field.
unfoldable pub unless_optional : AstType → Text → Text
unless_optional (optional_of inner) text = []
unless_optional _ text = text

unfoldable pub struct_encode_field : List IrStruct → ℕ → IrField → Text
struct_encode_field struct_lookup indent_level f =
    emit_encode_field_value struct_lookup (indent_level + 1) f f.type
      (literal "value." ∷ computed f.name ∷ [])

unfoldable pub struct_encoder : List IrStruct → ℕ → IrModule → IrStruct → Text
struct_encoder struct_lookup indent_level ir s =
    indentation indent_level
    ∷ literal "inline hasten::runtime::Result<void> "
    ∷ computed (encode_struct_helper s.name)
    ∷ literal "(const "
    ∷ computed (qualified_symbol ir s.name)
    ∷ literal "& value, hasten::runtime::hb1::Writer& writer)\n"
    ∷ indentation indent_level
    ∷ literal "{\n"
    ∷ indentation indent_level
    ∷ indentation 1
    ∷ literal "std::vector<hasten::runtime::hb1::FieldValue> values;\n"
    ∷ indentation indent_level
    ∷ indentation 1
    ∷ literal "values.reserve("
    ∷ decimal (length s.fields)
    ∷ literal ");\n"
    ∷ (concat (struct_encode_field struct_lookup indent_level) s.fields
        ++ (indentation indent_level
            ∷ indentation 1
            ∷ literal "hasten::runtime::hb1::MessageDescriptor descriptor{"
            ∷ computed s.name
            ∷ literal "_FieldDescriptors};\n"
            ∷ indentation indent_level
            ∷ indentation 1
            ∷ literal "return hasten::runtime::hb1::encode_message(descriptor, values, writer);\n"
            ∷ indentation indent_level
            ∷ literal "}\n\n"
            ∷ []))

unfoldable pub struct_presence_line : ℕ → IrField → Text
struct_presence_line indent_level f =
    indentation indent_level
    ∷ indentation 1
    ∷ literal "bool "
    ∷ computed (presence_name f.name)
    ∷ literal " = false;\n"
    ∷ []

unfoldable pub struct_presence : ℕ → IrField → Text
struct_presence indent_level f = unless_optional f.type (struct_presence_line indent_level f)

unfoldable pub struct_present : ℕ → IrField → Text
struct_present indent_level f =
    indentation (indent_level + 3) ∷ computed (presence_name f.name) ∷ literal " = true;\n" ∷ []

unfoldable pub struct_case : List IrStruct → ℕ → IrField → Text
struct_case struct_lookup indent_level f =
    indentation indent_level
    ∷ indentation 1
    ∷ literal "        case "
    ∷ decimal f.id
    ∷ literal ": {\n"
    ∷ (emit_decode_field_value struct_lookup (indent_level + 3) f f.type
          (literal "value." ∷ computed f.name ∷ []) (literal "field_value" ∷ [])
        ++ (unless_optional f.type (struct_present indent_level f)
            ++ (indentation indent_level
                ∷ indentation 1
                ∷ literal "            break;\n"
                ∷ indentation indent_level
                ∷ indentation 1
                ∷ literal "        }\n"
                ∷ [])))

unfoldable pub struct_missing_field : ℕ → IrModule → IrStruct → IrField → Text
struct_missing_field indent_level ir s f =
    indentation indent_level
    ∷ indentation 1
    ∷ literal "if (!"
    ∷ computed (presence_name f.name)
    ∷ literal ") {\n"
    ∷ indentation indent_level
    ∷ indentation 1
    ∷ literal "    return hasten::runtime::unexpected_result<"
    ∷ computed (qualified_symbol ir s.name)
    ∷ literal ">(hasten::runtime::ErrorCode::TransportError, \"missing field "
    ∷ computed f.name
    ∷ literal "\");\n"
    ∷ indentation indent_level
    ∷ indentation 1
    ∷ literal "}\n"
    ∷ []

unfoldable pub struct_missing : ℕ → IrModule → IrStruct → IrField → Text
struct_missing indent_level ir s f =
    unless_optional f.type (struct_missing_field indent_level ir s f)

unfoldable pub struct_decoder : List IrStruct → ℕ → IrModule → IrStruct → Text
struct_decoder struct_lookup indent_level ir s =
    indentation indent_level
    ∷ literal "inline hasten::runtime::Result<"
    ∷ computed (qualified_symbol ir s.name)
    ∷ literal "> "
    ∷ computed (decode_struct_helper s.name)
    ∷ literal "(std::span<const std::uint8_t> bytes)\n"
    ∷ indentation indent_level
    ∷ literal "{\n"
    ∷ indentation indent_level
    ∷ indentation 1
    ∷ computed (qualified_symbol ir s.name)
    ∷ literal " value{};\n"
    ∷ (concat (struct_presence indent_level) s.fields
        ++ (indentation indent_level
            ∷ indentation 1
            ∷ literal "hasten::runtime::SpanSource source{bytes};\n"
            ∷ indentation indent_level
            ∷ indentation 1
            ∷ literal "hasten::runtime::hb1::Reader reader{source};\n"
            ∷ indentation indent_level
            ∷ indentation 1
            ∷ literal "auto decoded = hasten::runtime::hb1::decode_message({"
            ∷ computed s.name
            ∷ literal "_FieldDescriptors}, reader);\n"
            ∷ indentation indent_level
            ∷ indentation 1
            ∷ literal "if (!decoded) {\n"
            ∷ indentation indent_level
            ∷ indentation 1
            ∷ literal "    return std::unexpected(decoded.error());\n"
            ∷ indentation indent_level
            ∷ indentation 1
            ∷ literal "}\n"
            ∷ indentation indent_level
            ∷ indentation 1
            ∷ literal "for (const auto& field_value : *decoded) {\n"
            ∷ indentation indent_level
            ∷ indentation 1
            ∷ literal "    switch (field_value.id) {\n"
            ∷ (concat (struct_case struct_lookup indent_level) s.fields
                ++ (indentation indent_level
                    ∷ indentation 1
                    ∷ literal "        default: break;\n"
                    ∷ indentation indent_level
                    ∷ indentation 1
                    ∷ literal "    }\n"
                    ∷ indentation indent_level
                    ∷ literal "    }\n"
                    ∷ (concat (struct_missing indent_level ir s) s.fields
                        ++ (indentation indent_level
                            ∷ indentation 1
                            ∷ literal "return value;\n"
                            ∷ indentation indent_level
                            ∷ literal "}\n\n"
                            ∷ []))))))
