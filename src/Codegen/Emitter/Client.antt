-- ===== src/Codegen/Emitter/Client.antt =====
-- src/codegen/emitter.cpp: the source of a client.
mod Request
mod Response
unfoldable pub use Request.*
unfoldable pub use Response.*
use hasten.Common.{ℕ, ◌+◌, [], ◌∷◌, ◌++◌}
use hasten.Codegen.Ir.{IrMethod, IrInterface, IrModule}
use hasten.Codegen.Emitter.{Text, literal, computed, indentation, write_joined}
use hasten.Codegen.Emitter.Names.{module_base_name}
use hasten.Codegen.Emitter.Types.{method_result_type, parameter_declaration}
use hasten.Codegen.Emitter.Declarations.{comma_after}

unfoldable pub client_async : ℕ → IrInterface → IrMethod → Text
client_async indent_level iface m =
    indentation indent_level
    ∷ literal "std::future<hasten::runtime::Result<"
    ∷ (method_result_type iface.name m
        ++ (literal ">> "
            ∷ computed iface.name
            ∷ literal "Client"
            ∷ literal "::"
            ∷ computed m.name
            ∷ literal "_async("
            ∷ (write_joined m.parameters (parameter_declaration) (literal ", " ∷ [])
                ++ (literal ") const\n"
                    ∷ indentation indent_level
                    ∷ literal "{\n"
                    ∷ indentation (indent_level + 1)
                    ∷ literal
                        "auto promise = std::make_shared<std::promise<hasten::runtime::Result<"
                    ∷ (method_result_type iface.name m
                        ++ (literal ">>>();\n"
                            ∷ indentation (indent_level + 1)
                            ∷ literal "auto future = promise->get_future();\n"
                            ∷ indentation (indent_level + 1)
                            ∷ computed m.name
                            ∷ literal "("
                            ∷ (write_joined m.parameters (argument_name) (literal ", " ∷ [])
                                ++ (comma_after m.parameters
                                    ++ (literal "[promise](hasten::runtime::Result<"
                                        ∷ (method_result_type iface.name m
                                            ++ (literal "> result) mutable {\n"
                                                ∷ indentation (indent_level + 2)
                                                ∷ literal "promise->set_value(std::move(result));\n"
                                                ∷ indentation (indent_level + 1)
                                                ∷ literal "});\n"
                                                ∷ indentation (indent_level + 1)
                                                ∷ literal "return future;\n"
                                                ∷ indentation indent_level
                                                ∷ literal "}\n\n"
                                                ∷ [])))))))))))

unfoldable pub client_sync : ℕ → IrInterface → IrMethod → Text
client_sync indent_level iface m =
    indentation indent_level
    ∷ literal "hasten::runtime::Result<"
    ∷ (method_result_type iface.name m
        ++ (literal "> "
            ∷ computed iface.name
            ∷ literal "Client"
            ∷ literal "::"
            ∷ computed m.name
            ∷ literal "_sync("
            ∷ (write_joined m.parameters (parameter_declaration) (literal ", " ∷ [])
                ++ (literal ") const\n"
                    ∷ indentation indent_level
                    ∷ literal "{\n"
                    ∷ indentation (indent_level + 1)
                    ∷ literal "auto future = "
                    ∷ computed m.name
                    ∷ literal "_async("
                    ∷ (write_joined m.parameters (argument_name) (literal ", " ∷ [])
                        ++ (literal ");\n"
                            ∷ indentation (indent_level + 1)
                            ∷ literal "return future.get();\n"
                            ∷ indentation indent_level
                            ∷ literal "}\n\n"
                            ∷ []))))))

unfoldable pub client_method : ℕ → IrInterface → IrMethod → Text
client_method indent_level iface m =
    (client_request indent_level iface m
      ++ (response_handler indent_level iface m
          ++ (client_send indent_level iface m
              ++ (client_async indent_level iface m ++ (client_sync indent_level iface m)))))

unfoldable pub client_constructor : ℕ → IrInterface → Text
client_constructor indent_level iface =
    indentation indent_level
    ∷ computed iface.name
    ∷ literal "Client"
    ∷ literal "::"
    ∷ computed iface.name
    ∷ literal "Client"
    ∷ literal "(std::shared_ptr<hasten::runtime::Channel> channel,\n"
    ∷ indentation indent_level
    ∷ literal "                 std::shared_ptr<hasten::runtime::Dispatcher> dispatcher)\n"
    ∷ indentation indent_level
    ∷ literal "    : channel_(std::move(channel))\n"
    ∷ indentation indent_level
    ∷ literal "    , dispatcher_(std::move(dispatcher))\n"
    ∷ indentation indent_level
    ∷ literal "{\n"
    ∷ indentation indent_level
    ∷ literal "}\n\n"
    ∷ []

unfoldable pub make_client : ℕ → IrInterface → Text
make_client indent_level iface =
    indentation indent_level
    ∷ literal "std::shared_ptr<"
    ∷ computed iface.name
    ∷ literal "Client"
    ∷ literal "> make_"
    ∷ computed iface.name
    ∷ literal "_client(std::shared_ptr<hasten::runtime::Channel> channel,\n"
    ∷ indentation indent_level
    ∷ literal
        "                                          std::shared_ptr<hasten::runtime::Dispatcher> dispatcher)\n"
    ∷ indentation indent_level
    ∷ literal "{\n"
    ∷ indentation indent_level
    ∷ literal "    return std::make_shared<"
    ∷ computed iface.name
    ∷ literal "Client"
    ∷ literal ">(std::move(channel), std::move(dispatcher));\n"
    ∷ indentation indent_level
    ∷ literal "}\n\n"
    ∷ []

unfoldable pub client_includes : IrModule → IrInterface → Text
client_includes ir iface =
    literal "// Auto-generated client stubs for module "
    ∷ computed ir.name
    ∷ literal ", interface "
    ∷ computed iface.name
    ∷ literal "\n\n#include \""
    ∷ computed (module_base_name ir)
    ∷ literal ".gen.hpp\"\n\n#include <future>\n#include <utility>\n\n"
    ∷ []
