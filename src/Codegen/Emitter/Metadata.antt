-- ===== src/Codegen/Emitter/Metadata.antt =====
-- src/codegen/emitter.cpp: the descriptors of the fields and the ids, in the namespace `detail` of a header.
use Prim.Native.String as String
use Prim.Native.String.{String}
use hasten.Common.{ℕ, List, [], ◌∷◌, ◌++◌, none, some}
use hasten.Codegen.Ir.{IrField, IrStruct, IrMethod, IrInterface}
use hasten.Codegen.Emitter.{Text, literal, computed, indentation, concat}
use hasten.Codegen.Emitter.Names.{hash_literal}
use hasten.Codegen.Emitter.Types.{emit_descriptor_array}

-- The functions for variable-length numbers of the generated code.
unfoldable pub varint_helpers : ℕ → Text
varint_helpers indent_level =
    indentation indent_level
    ∷ literal
        "inline void append_varint(std::vector<std::uint8_t>& buffer, std::uint64_t value) {\n"
    ∷ indentation indent_level
    ∷ indentation 1
    ∷ literal "while (value >= 0x80) {\n"
    ∷ indentation indent_level
    ∷ indentation 1
    ∷ indentation 1
    ∷ literal "buffer.push_back(static_cast<std::uint8_t>(value | 0x80));\n"
    ∷ indentation indent_level
    ∷ indentation 1
    ∷ indentation 1
    ∷ literal "value >>= 7;\n"
    ∷ indentation indent_level
    ∷ indentation 1
    ∷ literal "}\n"
    ∷ indentation indent_level
    ∷ indentation 1
    ∷ literal "buffer.push_back(static_cast<std::uint8_t>(value));\n"
    ∷ indentation indent_level
    ∷ literal "}\n"
    ∷ indentation indent_level
    ∷ literal
        "inline hasten::runtime::Result<std::uint64_t> read_varint(const std::vector<std::uint8_t>& buffer, std::size_t& offset) {\n"
    ∷ indentation indent_level
    ∷ indentation 1
    ∷ literal "std::uint64_t result = 0;\n"
    ∷ indentation indent_level
    ∷ indentation 1
    ∷ literal "int shift = 0;\n"
    ∷ indentation indent_level
    ∷ indentation 1
    ∷ literal "while (offset < buffer.size()) {\n"
    ∷ indentation indent_level
    ∷ indentation 1
    ∷ indentation 1
    ∷ literal "std::uint8_t byte = buffer[offset++];\n"
    ∷ indentation indent_level
    ∷ indentation 1
    ∷ indentation 1
    ∷ literal "result |= static_cast<std::uint64_t>(byte & 0x7F) << shift;\n"
    ∷ indentation indent_level
    ∷ indentation 1
    ∷ indentation 1
    ∷ literal "if ((byte & 0x80) == 0) {\n"
    ∷ indentation indent_level
    ∷ indentation 1
    ∷ indentation 1
    ∷ indentation 1
    ∷ literal "return result;\n"
    ∷ indentation indent_level
    ∷ indentation 1
    ∷ indentation 1
    ∷ literal "}\n"
    ∷ indentation indent_level
    ∷ indentation 1
    ∷ indentation 1
    ∷ literal "shift += 7;\n"
    ∷ indentation indent_level
    ∷ indentation 1
    ∷ indentation 1
    ∷ literal "if (shift >= 64) {\n"
    ∷ indentation indent_level
    ∷ indentation 1
    ∷ indentation 1
    ∷ indentation 1
    ∷ literal
        "return hasten::runtime::unexpected_result<std::uint64_t>(hasten::runtime::ErrorCode::TransportError, \"varint too long\");\n"
    ∷ indentation indent_level
    ∷ indentation 1
    ∷ indentation 1
    ∷ literal "}\n"
    ∷ indentation indent_level
    ∷ indentation 1
    ∷ literal "}\n"
    ∷ indentation indent_level
    ∷ indentation 1
    ∷ literal
        "return hasten::runtime::unexpected_result<std::uint64_t>(hasten::runtime::ErrorCode::TransportError, \"truncated varint\");\n"
    ∷ indentation indent_level
    ∷ literal "}\n\n"
    ∷ []

unfoldable pub struct_descriptors : ℕ → IrStruct → Text
struct_descriptors indent_level s =
    (emit_descriptor_array (indentation indent_level ∷ []) (literal "inline constexpr " ∷ [])
        (computed s.name ∷ literal "_FieldDescriptors" ∷ []) s.fields
      ++ (literal "\n" ∷ []))

-- The fields of a response: the named results, or the result with the name that it gets.
unfoldable pub response_fields : String → IrMethod → List IrField
response_fields value_name m = elim m.result_fields [
  | f ∷ fields ↦ f ∷ fields
  | [] ↦ elim m.result_type [
    | none ↦ []
    | some type ↦
        record { id = 1; name = value_name; type = type; default_value = none; attributes = [] }
        ∷ []
  ]
]

unfoldable pub method_metadata : ℕ → String → IrInterface → IrMethod → Text
method_metadata indent_level ir_name iface m =
    indentation indent_level
    ∷ indentation 1
    ∷ literal "struct "
    ∷ computed m.name
    ∷ literal "Metadata"
    ∷ literal " {\n"
    ∷ indentation indent_level
    ∷ indentation 1
    ∷ indentation 1
    ∷ literal "static constexpr std::uint64_t method_id = "
    ∷ (hash_literal
          (String.◌++◌ ir_name (String.◌++◌ "." (String.◌++◌ iface.name (String.◌++◌ "." m.name))))
        ++ (literal ";\n"
            ∷ (emit_descriptor_array (indentation indent_level ∷ literal "        " ∷ [])
                  (literal "static constexpr " ∷ []) (literal "RequestFields" ∷ []) m.parameters
                ++ (emit_descriptor_array (indentation indent_level ∷ literal "        " ∷ [])
                      (literal "static constexpr " ∷ []) (literal "ResponseFields" ∷ [])
                      (response_fields "" m)
                    ++ (indentation indent_level ∷ literal "    };\n\n" ∷ [])))))

unfoldable pub interface_metadata : ℕ → String → IrInterface → Text
interface_metadata indent_level ir_name iface =
    indentation indent_level
    ∷ literal "struct "
    ∷ computed iface.name
    ∷ literal "Metadata"
    ∷ literal " {\n"
    ∷ indentation indent_level
    ∷ indentation 1
    ∷ literal "static constexpr std::uint64_t module_id = "
    ∷ (hash_literal ir_name
        ++ (literal ";\n"
            ∷ indentation indent_level
            ∷ indentation 1
            ∷ literal "static constexpr std::uint64_t interface_id = "
            ∷ (hash_literal (String.◌++◌ ir_name (String.◌++◌ "." iface.name))
                ++ (literal ";\n\n"
                    ∷ (concat (method_metadata indent_level ir_name iface) iface.methods
                        ++ (indentation indent_level ∷ literal "};\n\n" ∷ []))))))
