-- ===== src/Codegen/Emitter/Nesting/Sources.antt =====
-- The braces of every generated file are well nested.
use hasten.Common.{ℕ, suc, ◌≡◌, refl, List, [], ◌∷◌, some}
use hasten.Codegen.Ir.{IrField, IrStruct, IrMethod, IrInterface, IrModule}
use hasten.Codegen.Emitter.{literal, computed, indentation, concat, write_joined}
use hasten.Codegen.Emitter.Types.{open_namespaces, close_namespaces}
use hasten.Codegen.Emitter.Declarations.{
  generate_header_comment, generate_header_includes, generate_enum, generate_struct,
  generate_tuple_structs, generate_interface, generate_uds_client_creation,
}
use hasten.Codegen.Emitter.Metadata.{
  varint_helpers, struct_descriptors, interface_metadata, response_fields,
}
use hasten.Codegen.Emitter.StructCodec.{struct_encoder, struct_decoder}
use hasten.Codegen.Emitter.RequestCodec.{request_encoder, request_struct, request_decoder}
use hasten.Codegen.Emitter.ResponseCodec.{response_encoder, response_decoder}
use hasten.Codegen.Emitter.Client.{client_includes, client_constructor, client_method, make_client}
use hasten.Codegen.Emitter.Server.{server_includes, server_head, server_case, server_tail}
use hasten.Codegen.Emitter.Sources.{
  all_of, struct_codec, response_codec, method_codec, interface_codec, generate_detail_namespace,
  generate_header, indent_level_of, generate_client_source, generate_server_source,
}
use hasten.Codegen.Emitter.Nesting.{
  nesting, depth_after, Closed, Opens, Closes, through, onward, Closed-concat, Closed-write_joined,
}
use hasten.Codegen.Emitter.Nesting.Declarations.{
  Closed-generate_header_comment, Closed-generate_header_includes, Closed-generate_enum,
  Closed-generate_struct, Closed-generate_tuple_structs, Closed-generate_interface,
  Closed-generate_uds_client_creation,
}
use hasten.Codegen.Emitter.Nesting.Metadata.{
  Closed-varint_helpers, Closed-struct_descriptors, Closed-interface_metadata,
}
use hasten.Codegen.Emitter.Nesting.StructCodec.{Closed-struct_encoder, Closed-struct_decoder}
use hasten.Codegen.Emitter.Nesting.RequestCodec.{
  Closed-request_encoder, Closed-request_struct, Closed-request_decoder,
}
use hasten.Codegen.Emitter.Nesting.ResponseCodec.{Closed-response_encoder, Closed-response_decoder}
use hasten.Codegen.Emitter.Nesting.Client.{
  Closed-client_includes, Closed-client_constructor, Closed-client_method, Closed-make_client,
}
use hasten.Codegen.Emitter.Nesting.Server.{
  Closed-server_includes, Closed-server_head, Closed-server_case, Closed-server_tail,
}

Opens-namespaces : (ir : IrModule) → Opens (open_namespaces ir)
unfolding open_namespaces nesting depth_after
Opens-namespaces ir depth =
    through (write_joined ir.namespace_parts (λ part. computed part ∷ []) (literal "::" ∷ [])) _ _ _
      (Closed-write_joined (λ part. computed part ∷ []) (λ part d. refl) (literal "::" ∷ [])
        (λ d. refl) ir.namespace_parts)
      refl

Closes-namespaces : (ir : IrModule) → Closes (close_namespaces ir)
unfolding close_namespaces nesting depth_after
Closes-namespaces ir depth =
    through (write_joined ir.namespace_parts (λ part. computed part ∷ []) (literal "::" ∷ [])) _ _ _
      (Closed-write_joined (λ part. computed part ∷ []) (λ part d. refl) (literal "::" ∷ [])
        (λ d. refl) ir.namespace_parts)
      refl

Closed-struct_codec :
    (lookup : List IrStruct) (level : ℕ) (ir : IrModule) (s : IrStruct)
    → Closed (struct_codec lookup level ir s)
unfolding struct_codec nesting
Closed-struct_codec lookup level ir s depth =
    through (struct_encoder lookup level ir s) _ _ _ (Closed-struct_encoder lookup level ir s) (
      through (struct_decoder lookup level ir s) _ _ _ (Closed-struct_decoder lookup level ir s)
        refl)

Closed-response_codec :
    (lookup : List IrStruct) (level : ℕ) (iface : IrInterface) (m : IrMethod)
    → Closed (response_codec lookup level iface m)
unfolding response_codec nesting
Closed-response_codec lookup level iface m = by_fields (response_fields "value" m)
  where
    by_fields :
        (fields : List IrField)
        → Closed (elim fields [
          | [] ↦ []
          | f ∷ more ↦
              all_of
                (response_encoder lookup level iface m ∷ response_decoder lookup level iface m ∷ [])
        ])
    by_fields [] depth = refl
    by_fields (f ∷ fields) depth =
        through (response_encoder lookup level iface m) _ _ _
          (Closed-response_encoder lookup level iface m)
          (through (response_decoder lookup level iface m) _ _ _
            (Closed-response_decoder lookup level iface m) refl)

Closed-method_codec :
    (lookup : List IrStruct) (level : ℕ) (iface : IrInterface) (m : IrMethod)
    → Closed (method_codec lookup level iface m)
unfolding method_codec nesting
Closed-method_codec lookup level iface m depth =
    through (request_encoder lookup level iface m) _ _ _
      (Closed-request_encoder lookup level iface m)
      (through (request_struct level iface m) _ _ _ (Closed-request_struct level iface m) (
        through (request_decoder lookup level iface m) _ _ _
          (Closed-request_decoder lookup level iface m)
          (through (response_codec lookup level iface m) _ _ _
            (Closed-response_codec lookup level iface m) refl)))

Closed-interface_codec :
    (lookup : List IrStruct) (level : ℕ) (iface : IrInterface)
    → Closed (interface_codec lookup level iface)
unfolding interface_codec
Closed-interface_codec lookup level iface =
    Closed-concat (method_codec lookup level iface) (Closed-method_codec lookup level iface)
      iface.methods

Closed-generate_detail_namespace :
    (level : ℕ) (ir : IrModule) → Closed (generate_detail_namespace level ir)
unfolding generate_detail_namespace indentation nesting depth_after
Closed-generate_detail_namespace level ir depth =
    through (varint_helpers level) _ _ _ (Closed-varint_helpers level) (
      through (concat (struct_descriptors level) ir.structs) _ _ _
        (Closed-concat (struct_descriptors level) (Closed-struct_descriptors level) ir.structs)
        (through (concat (interface_metadata level ir.name) ir.interfaces) _ _ _
          (Closed-concat (interface_metadata level ir.name)
            (Closed-interface_metadata level ir.name) ir.interfaces)
          (through (concat (struct_codec ir.structs level ir) ir.structs) _ _ _
            (Closed-concat (struct_codec ir.structs level ir)
              (Closed-struct_codec ir.structs level ir) ir.structs)
            (through (concat (interface_codec ir.structs level) ir.interfaces) _ _ _
              (Closed-concat (interface_codec ir.structs level)
                (Closed-interface_codec ir.structs level) ir.interfaces)
              refl))))

Closed-generate_header : (ir : IrModule) → Closed (generate_header ir)
unfolding generate_header indentation nesting depth_after
Closed-generate_header ir depth =
    through generate_header_comment _ _ _ Closed-generate_header_comment (
      through generate_header_includes _ _ _ Closed-generate_header_includes (
        onward (open_namespaces ir) _ _ _ _ (Opens-namespaces ir depth) (
          through (concat (generate_enum 0) ir.enums) _ _ _
            (Closed-concat (generate_enum 0) (Closed-generate_enum 0) ir.enums)
            (through (concat (generate_struct 0) ir.structs) _ _ _
              (Closed-concat (generate_struct 0) (Closed-generate_struct 0) ir.structs)
              (through (generate_tuple_structs 0 ir.interfaces) _ _ _
                (Closed-generate_tuple_structs 0 ir.interfaces)
                (through (concat (generate_interface 0) ir.interfaces) _ _ _
                  (Closed-concat (generate_interface 0) (Closed-generate_interface 0) ir.interfaces)
                  (through (concat (generate_uds_client_creation 0) ir.interfaces) _ _ _
                    (Closed-concat (generate_uds_client_creation 0)
                      (Closed-generate_uds_client_creation 0) ir.interfaces)
                    (through (generate_detail_namespace 0 ir) _ _ _
                      (Closed-generate_detail_namespace 0 ir)
                      (onward (close_namespaces ir) _ _ _ _ (Closes-namespaces ir depth)
                        refl)))))))))

Closed-generate_client_source :
    (ir : IrModule) (iface : IrInterface) → Closed (generate_client_source ir iface)
unfolding generate_client_source nesting depth_after
Closed-generate_client_source ir iface depth =
    through (client_includes ir iface) _ _ _ (Closed-client_includes ir iface) (
      onward (open_namespaces ir) _ _ _ _ (Opens-namespaces ir depth) (
        through (client_constructor (indent_level_of ir) iface) _ _ _
          (Closed-client_constructor (indent_level_of ir) iface)
          (through (concat (client_method (indent_level_of ir) iface) iface.methods) _ _ _
            (Closed-concat (client_method (indent_level_of ir) iface)
              (Closed-client_method (indent_level_of ir) iface) iface.methods)
            (through (make_client (indent_level_of ir) iface) _ _ _
              (Closed-make_client (indent_level_of ir) iface)
              (onward (close_namespaces ir) _ _ _ _ (Closes-namespaces ir depth) refl)))))

Closed-generate_server_source :
    (ir : IrModule) (iface : IrInterface) → Closed (generate_server_source ir iface)
unfolding generate_server_source nesting depth_after
Closed-generate_server_source ir iface depth =
    through (server_includes ir iface) _ _ _ (Closed-server_includes ir iface) (
      onward (open_namespaces ir) _ _ _ _ (Opens-namespaces ir depth) (
        onward (server_head (indent_level_of ir) iface) _ _ _ _
          (Closed-server_head (indent_level_of ir) iface (suc depth))
          (through (concat (server_case (indent_level_of ir) iface) iface.methods) _ _ _
            (Closed-concat (server_case (indent_level_of ir) iface)
              (Closed-server_case (indent_level_of ir) iface) iface.methods)
            (onward (server_tail (indent_level_of ir) iface) _ _ _ _
              (Closed-server_tail (indent_level_of ir) iface (suc depth))
              (onward (close_namespaces ir) _ _ _ _ (Closes-namespaces ir depth) refl)))))

-- Whatever module is emitted, the braces that the emitter writes in the header, and in the sources
-- of the client and the server of each interface, are well nested: none is closed that is not open,
-- and at the end none is open.
pub nesting-generate :
    (ir : IrModule) (iface : IrInterface)
    → (nesting (generate_header ir) 0 ≡ some 0)
      × (nesting (generate_client_source ir iface) 0 ≡ some 0)
      × (nesting (generate_server_source ir iface) 0 ≡ some 0)
nesting-generate ir iface = (
  Closed-generate_header ir 0,
  Closed-generate_client_source ir iface 0,
  Closed-generate_server_source ir iface 0,
)
