-- ===== src/Codegen/Emitter/Server.antt =====
-- src/codegen/emitter.cpp: the source of a server.
use hasten.Common.{ℕ, ◌+◌, [], ◌∷◌, ◌++◌}
use hasten.Codegen.Ir.{IrField, IrMethod, IrInterface, IrModule}
use hasten.Codegen.Emitter.{Text, literal, computed, indentation, write_joined}
use hasten.Codegen.Emitter.Names.{method_helper_prefix, module_base_name}
use hasten.Codegen.Emitter.Client.{if_response}

unfoldable pub server_includes : IrModule → IrInterface → Text
server_includes ir iface =
    literal "// Auto-generated server helpers for module "
    ∷ computed ir.name
    ∷ literal ", interface "
    ∷ computed iface.name
    ∷ literal "\n#include \""
    ∷ computed (module_base_name ir)
    ∷ literal ".gen.hpp\"\n#include <utility>\n\n"
    ∷ []

unfoldable pub server_head : ℕ → IrInterface → Text
server_head indent_level iface =
    indentation indent_level
    ∷ literal "void bind_"
    ∷ computed iface.name
    ∷ literal "(std::shared_ptr<"
    ∷ computed iface.name
    ∷ literal "> implementation,\n"
    ∷ indentation indent_level
    ∷ literal "             std::shared_ptr<hasten::runtime::Executor> executor)\n"
    ∷ indentation indent_level
    ∷ literal "{\n"
    ∷ indentation (indent_level + 1)
    ∷ literal "if (!implementation) {\n"
    ∷ indentation (indent_level + 1)
    ∷ literal "    return;\n"
    ∷ indentation (indent_level + 1)
    ∷ literal "}\n"
    ∷ indentation (indent_level + 1)
    ∷ literal "if (!executor) {\n"
    ∷ indentation (indent_level + 1)
    ∷ literal "    executor = hasten::runtime::make_default_executor();\n"
    ∷ indentation (indent_level + 1)
    ∷ literal "}\n"
    ∷ indentation (indent_level + 1)
    ∷ literal "hasten::runtime::rpc::register_handler(detail::"
    ∷ computed iface.name
    ∷ literal "Metadata::interface_id,\n"
    ∷ indentation (indent_level + 1)
    ∷ literal "    [impl = std::move(implementation), exec = std::move(executor)](\n"
    ∷ indentation (indent_level + 1)
    ∷ literal "        std::shared_ptr<hasten::runtime::rpc::Request> request,\n"
    ∷ indentation (indent_level + 1)
    ∷ literal "        hasten::runtime::rpc::Responder responder) mutable {\n"
    ∷ indentation (indent_level + 1)
    ∷ literal
        "        exec->schedule([impl, req = std::move(request), responder = std::move(responder)]() mutable {\n"
    ∷ indentation (indent_level + 1)
    ∷ literal "            switch (req->method_id) {\n"
    ∷ []

unfoldable pub request_argument : IrField → Text
request_argument f = literal "request_data." ∷ computed f.name ∷ []

unfoldable pub server_with_response : ℕ → IrInterface → IrMethod → Text
server_with_response indent_level iface m =
    indentation (indent_level + 4)
    ∷ literal "std::vector<std::uint8_t> response_body;\n"
    ∷ indentation (indent_level + 4)
    ∷ literal "hasten::runtime::VectorSink response_sink{response_body};\n"
    ∷ indentation (indent_level + 4)
    ∷ literal "hasten::runtime::hb1::Writer response_writer{response_sink};\n"
    ∷ indentation (indent_level + 4)
    ∷ literal "auto response_value = std::move(*result);\n"
    ∷ indentation (indent_level + 4)
    ∷ literal "if (auto encode_res = "
    ∷ literal "detail::encode_"
    ∷ computed (method_helper_prefix iface.name m.name)
    ∷ literal "_response"
    ∷ literal "(response_writer, response_value); !encode_res) {\n"
    ∷ indentation (indent_level + 4)
    ∷ literal
        "    responder(hasten::runtime::rpc::Response{hasten::runtime::rpc::Status::InternalError, {}});\n"
    ∷ indentation (indent_level + 4)
    ∷ literal "    return;\n"
    ∷ indentation (indent_level + 4)
    ∷ literal "}\n"
    ∷ indentation (indent_level + 4)
    ∷ literal
        "responder(hasten::runtime::rpc::Response{hasten::runtime::rpc::Status::Ok, std::move(response_body)});\n"
    ∷ []

unfoldable pub server_without_response : ℕ → IrInterface → IrMethod → Text
server_without_response indent_level iface m =
    indentation (indent_level + 4)
    ∷ literal "responder(hasten::runtime::rpc::Response{hasten::runtime::rpc::Status::Ok, {}});\n"
    ∷ []

unfoldable pub server_case : ℕ → IrInterface → IrMethod → Text
server_case indent_level iface m =
    indentation (indent_level + 3)
    ∷ literal "case "
    ∷ literal "detail::"
    ∷ computed iface.name
    ∷ literal "Metadata::"
    ∷ computed m.name
    ∷ literal "Metadata::"
    ∷ literal "method_id: {\n"
    ∷ indentation (indent_level + 4)
    ∷ literal "auto decoded = "
    ∷ literal "detail::decode_"
    ∷ computed (method_helper_prefix iface.name m.name)
    ∷ literal "_request"
    ∷ literal "(req->payload);\n"
    ∷ indentation (indent_level + 4)
    ∷ literal "if (!decoded) {\n"
    ∷ indentation (indent_level + 4)
    ∷ literal
        "    responder(hasten::runtime::rpc::Response{hasten::runtime::rpc::Status::InvalidRequest, {}});\n"
    ∷ indentation (indent_level + 4)
    ∷ literal "    return;\n"
    ∷ indentation (indent_level + 4)
    ∷ literal "}\n"
    ∷ indentation (indent_level + 4)
    ∷ literal "auto request_data = std::move(*decoded);\n"
    ∷ indentation (indent_level + 4)
    ∷ literal "auto result = impl->"
    ∷ computed m.name
    ∷ literal "("
    ∷ (write_joined m.parameters (request_argument) (literal ", " ∷ [])
        ++ (literal ");\n"
            ∷ indentation (indent_level + 4)
            ∷ literal "if (!result) {\n"
            ∷ indentation (indent_level + 4)
            ∷ literal
                "    responder(hasten::runtime::rpc::Response{hasten::runtime::rpc::Status::ApplicationError, {}});\n"
            ∷ indentation (indent_level + 4)
            ∷ literal "    return;\n"
            ∷ indentation (indent_level + 4)
            ∷ literal "}\n"
            ∷ (if_response m (server_with_response indent_level iface m)
                  (server_without_response indent_level iface m)
                ++ (indentation (indent_level + 4)
                    ∷ literal "return;\n"
                    ∷ indentation (indent_level + 3)
                    ∷ literal "}\n"
                    ∷ []))))

unfoldable pub server_tail : ℕ → IrInterface → Text
server_tail indent_level iface =
    indentation (indent_level + 3)
    ∷ literal "default: {\n"
    ∷ indentation (indent_level + 4)
    ∷ literal
        "responder(hasten::runtime::rpc::Response{hasten::runtime::rpc::Status::NotFound, {}});\n"
    ∷ indentation (indent_level + 4)
    ∷ literal "return;\n"
    ∷ indentation (indent_level + 3)
    ∷ literal "}\n"
    ∷ indentation (indent_level + 1)
    ∷ literal "            }\n"
    ∷ indentation (indent_level + 1)
    ∷ literal "        });\n"
    ∷ indentation (indent_level + 1)
    ∷ literal "    });\n"
    ∷ indentation indent_level
    ∷ literal "}\n\n"
    ∷ []
