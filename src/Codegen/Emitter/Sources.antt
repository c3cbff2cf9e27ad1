-- ===== src/Codegen/Emitter/Sources.antt =====
-- src/codegen/emitter.cpp: the texts of the files that are generated for a module.
use hasten.Common.{ℕ, List, [], ◌∷◌, ◌++◌, length}
use hasten.Codegen.Ir.{IrStruct, IrMethod, IrInterface, IrModule}
use hasten.Codegen.Emitter.{Text, literal, computed, indentation, concat}
use hasten.Codegen.Emitter.Types.{open_namespaces, close_namespaces}
use hasten.Codegen.Emitter.Declarations.{
  generate_header_comment, generate_header_includes, generate_enum, generate_struct,
  generate_tuple_structs, generate_interface, generate_uds_client_creation,
}
use hasten.Codegen.Emitter.Metadata.{
  varint_helpers, struct_descriptors, interface_metadata, response_fields,
}
use hasten.Codegen.Emitter.StructCodec.{struct_encoder, struct_decoder}
use hasten.Codegen.Emitter.RequestCodec.{request_encoder, request_struct, request_decoder}
use hasten.Codegen.Emitter.ResponseCodec.{response_encoder, response_decoder}
use hasten.Codegen.Emitter.Client.{client_includes, client_constructor, client_method, make_client}
use hasten.Codegen.Emitter.Server.{server_includes, server_head, server_case, server_tail}

-- The texts of a list, one behind the other.
abbrev pub all_of : List Text → Text
all_of [] = []
all_of (text ∷ texts) = text ++ all_of texts

unfoldable pub struct_codec : List IrStruct → ℕ → IrModule → IrStruct → Text
struct_codec struct_lookup indent_level ir s = all_of (
    struct_encoder struct_lookup indent_level ir s
    ∷ struct_decoder struct_lookup indent_level ir s
    ∷ [])

unfoldable pub response_codec : List IrStruct → ℕ → IrInterface → IrMethod → Text
response_codec struct_lookup indent_level iface m = elim (response_fields "value" m) [
  | [] ↦ []
  | f ∷ fields ↦ all_of (
      response_encoder struct_lookup indent_level iface m
      ∷ response_decoder struct_lookup indent_level iface m
      ∷ [])
]

unfoldable pub method_codec : List IrStruct → ℕ → IrInterface → IrMethod → Text
method_codec struct_lookup indent_level iface m = all_of (
    request_encoder struct_lookup indent_level iface m
    ∷ request_struct indent_level iface m
    ∷ request_decoder struct_lookup indent_level iface m
    ∷ response_codec struct_lookup indent_level iface m
    ∷ [])

unfoldable pub interface_codec : List IrStruct → ℕ → IrInterface → Text
interface_codec struct_lookup indent_level iface =
    concat (method_codec struct_lookup indent_level iface) iface.methods

-- `struct_lookup` is that of the structures of the module.
unfoldable pub generate_detail_namespace : ℕ → IrModule → Text
generate_detail_namespace indent_level ir = all_of (
    (indentation indent_level ∷ literal "namespace detail {\n\n" ∷ [])
    ∷ varint_helpers indent_level
    ∷ concat (struct_descriptors indent_level) ir.structs
    ∷ concat (interface_metadata indent_level ir.name) ir.interfaces
    ∷ concat (struct_codec ir.structs indent_level ir) ir.structs
    ∷ concat (interface_codec ir.structs indent_level) ir.interfaces
    ∷ (indentation indent_level ∷ literal "}  // namespace detail\n\n" ∷ [])
    ∷ [])

unfoldable pub generate_header : IrModule → Text
generate_header ir = all_of (
    generate_header_comment
    ∷ generate_header_includes
    ∷ open_namespaces ir
    ∷ (indentation 0 ∷ literal "// Module: " ∷ computed ir.name ∷ literal "\n\n" ∷ [])
    ∷ concat (generate_enum 0) ir.enums
    ∷ concat (generate_struct 0) ir.structs
    ∷ generate_tuple_structs 0 ir.interfaces
    ∷ concat (generate_interface 0) ir.interfaces
    ∷ concat (generate_uds_client_creation 0) ir.interfaces
    ∷ generate_detail_namespace 0 ir
    ∷ close_namespaces ir
    ∷ (literal "\n" ∷ [])
    ∷ [])

abbrev pub indent_level_of : IrModule → ℕ
indent_level_of ir = length ir.namespace_parts

unfoldable pub generate_client_source : IrModule → IrInterface → Text
generate_client_source ir iface = all_of (
    client_includes ir iface
    ∷ open_namespaces ir
    ∷ (literal "\n" ∷ [])
    ∷ client_constructor (indent_level_of ir) iface
    ∷ concat (client_method (indent_level_of ir) iface) iface.methods
    ∷ make_client (indent_level_of ir) iface
    ∷ close_namespaces ir
    ∷ (literal "\n" ∷ [])
    ∷ [])

unfoldable pub generate_server_source : IrModule → IrInterface → Text
generate_server_source ir iface = all_of (
    server_includes ir iface
    ∷ open_namespaces ir
    ∷ (literal "\n" ∷ [])
    ∷ server_head (indent_level_of ir) iface
    ∷ concat (server_case (indent_level_of ir) iface) iface.methods
    ∷ server_tail (indent_level_of ir) iface
    ∷ close_namespaces ir
    ∷ (literal "\n" ∷ [])
    ∷ [])
