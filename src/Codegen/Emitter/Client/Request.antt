-- ===== src/Codegen/Emitter/Client/Request.antt =====
-- src/codegen/emitter.cpp: how a call of a client begins.
use hasten.Common.{ℕ, ◌+◌, [], ◌∷◌, ◌++◌, none, some}
use hasten.Codegen.Ir.{IrField, IrMethod, IrInterface}
use hasten.Codegen.Emitter.{Text, literal, computed, indentation, concat, write_joined}
use hasten.Codegen.Emitter.Names.{method_helper_prefix}
use hasten.Codegen.Emitter.Types.{method_result_type, parameter_declaration}
use hasten.Codegen.Emitter.Declarations.{comma_after, callback_type}

-- The name of a parameter, as it is handed on.
unfoldable pub argument_name : IrField → Text
argument_name f = computed f.name ∷ []

unfoldable pub more_argument : IrField → Text
more_argument f = literal ", " ∷ computed f.name ∷ []

-- `has_response`: for a method with named results or a result.
unfoldable pub if_response : IrMethod → Text → Text → Text
if_response m with_response without = elim m.result_fields [
  | f ∷ fields ↦ with_response
  | [] ↦ elim m.result_type [ none ↦ without | some type ↦ with_response ]
]

-- How a call begins: the payload of the request frame.
unfoldable pub client_request : ℕ → IrInterface → IrMethod → Text
client_request indent_level iface m =
    indentation indent_level
    ∷ literal "void "
    ∷ computed iface.name
    ∷ literal "Client"
    ∷ literal "::"
    ∷ computed m.name
    ∷ literal "("
    ∷ (write_joined m.parameters (parameter_declaration) (literal ", " ∷ [])
        ++ (comma_after m.parameters
            ++ (callback_type iface.name m
                ++ (literal " callback) const\n"
                    ∷ indentation indent_level
                    ∷ literal "{\n"
                    ∷ indentation (indent_level + 1)
                    ∷ literal "auto callback_fn = callback;\n"
                    ∷ indentation (indent_level + 1)
                    ∷ literal "if (!channel_ || !dispatcher_) {\n"
                    ∷ indentation (indent_level + 2)
                    ∷ literal "if (callback_fn) {\n"
                    ∷ indentation (indent_level + 2)
                    ∷ literal "    callback_fn(hasten::runtime::unexpected_result<"
                    ∷ (method_result_type iface.name m
                        ++ (literal
                              ">(hasten::runtime::ErrorCode::TransportError, \"channel not ready\"));\n"
                            ∷ indentation (indent_level + 2)
                            ∷ literal "}\n"
                            ∷ indentation (indent_level + 2)
                            ∷ literal "return;\n"
                            ∷ indentation (indent_level + 1)
                            ∷ literal "}\n"
                            ∷ indentation (indent_level + 1)
                            ∷ literal "auto stream_id = dispatcher_->open_stream();\n"
                            ∷ indentation (indent_level + 1)
                            ∷ literal "std::vector<std::uint8_t> frame_payload;\n"
                            ∷ indentation (indent_level + 1)
                            ∷ literal "frame_payload.reserve(64);\n"
                            ∷ indentation (indent_level + 1)
                            ∷ literal "detail::append_varint(frame_payload, detail::"
                            ∷ computed iface.name
                            ∷ literal "Metadata::module_id);\n"
                            ∷ indentation (indent_level + 1)
                            ∷ literal "detail::append_varint(frame_payload, detail::"
                            ∷ computed iface.name
                            ∷ literal "Metadata::interface_id);\n"
                            ∷ indentation (indent_level + 1)
                            ∷ literal "detail::append_varint(frame_payload, "
                            ∷ literal "detail::"
                            ∷ computed iface.name
                            ∷ literal "Metadata::"
                            ∷ computed m.name
                            ∷ literal "Metadata::"
                            ∷ literal "method_id);\n"
                            ∷ indentation (indent_level + 1)
                            ∷ literal
                                "detail::append_varint(frame_payload, static_cast<std::uint64_t>(hasten::runtime::Encoding::Hb1));\n"
                            ∷ indentation (indent_level + 1)
                            ∷ literal "detail::append_varint(frame_payload, stream_id);\n"
                            ∷ indentation (indent_level + 1)
                            ∷ literal "std::vector<std::uint8_t> message_body;\n"
                            ∷ indentation (indent_level + 1)
                            ∷ literal "hasten::runtime::VectorSink sink{message_body};\n"
                            ∷ indentation (indent_level + 1)
                            ∷ literal "hasten::runtime::hb1::Writer writer{sink};\n"
                            ∷ indentation (indent_level + 1)
                            ∷ literal "if (auto res = "
                            ∷ literal "detail::encode_"
                            ∷ computed (method_helper_prefix iface.name m.name)
                            ∷ literal "_request"
                            ∷ literal "(writer"
                            ∷ (concat more_argument m.parameters
                                ++ (literal "); !res) {\n"
                                    ∷ indentation (indent_level + 2)
                                    ∷ literal "dispatcher_->close_stream(stream_id);\n"
                                    ∷ indentation (indent_level + 2)
                                    ∷ literal "if (callback_fn) {\n"
                                    ∷ indentation (indent_level + 2)
                                    ∷ literal "    callback_fn(std::unexpected(res.error()));\n"
                                    ∷ indentation (indent_level + 2)
                                    ∷ literal "}\n"
                                    ∷ indentation (indent_level + 2)
                                    ∷ literal "return;\n"
                                    ∷ indentation (indent_level + 1)
                                    ∷ literal "}\n"
                                    ∷ indentation (indent_level + 1)
                                    ∷ literal
                                        "frame_payload.insert(frame_payload.end(), message_body.begin(), message_body.end());\n"
                                    ∷ []))))))))

unfoldable pub client_with_response : ℕ → IrInterface → IrMethod → Text
client_with_response indent_level iface m =
    indentation (indent_level + 1)
    ∷ literal "        auto decoded = "
    ∷ literal "detail::decode_"
    ∷ computed (method_helper_prefix iface.name m.name)
    ∷ literal "_response"
    ∷ literal "(response.body);\n"
    ∷ indentation (indent_level + 1)
    ∷ literal "        if (!decoded) {\n"
    ∷ indentation (indent_level + 1)
    ∷ literal "            callback_fn(std::unexpected(decoded.error()));\n"
    ∷ indentation (indent_level + 1)
    ∷ literal "            return;\n"
    ∷ indentation (indent_level + 1)
    ∷ literal "        }\n"
    ∷ indentation (indent_level + 1)
    ∷ literal "        callback_fn(hasten::runtime::Result<"
    ∷ (method_result_type iface.name m ++ (literal ">{std::move(*decoded)});\n" ∷ []))

unfoldable pub client_without_response : ℕ → IrInterface → IrMethod → Text
client_without_response indent_level iface m =
    indentation (indent_level + 1)
    ∷ literal "        callback_fn(hasten::runtime::Result<void>{});\n"
    ∷ []
