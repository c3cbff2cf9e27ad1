-- ===== src/Codegen/Emitter/Declarations.antt =====
-- src/codegen/emitter.cpp: the declarations of a header: enumerations, structures, and the client and
-- the service of an interface.
mod Structures
unfoldable pub use Structures.*
use Prim.Native.String.{String}
use hasten.Common.{ℕ, ◌+◌, List, [], ◌∷◌, ◌++◌}
use hasten.Codegen.Ir.{IrField, IrMethod, IrInterface}
use hasten.Codegen.Emitter.{Text, literal, computed, indentation, concat, write_joined}
use hasten.Codegen.Emitter.Types.{parameter_declaration, method_result_type}

unfoldable pub callback_type : String → IrMethod → Text
callback_type iface_name m =
    literal "std::function<void(hasten::runtime::Result<"
    ∷ (method_result_type iface_name m ++ (literal ">)>" ∷ []))

-- `if (!parameters.empty()) os << ", "`
unfoldable pub comma_after : List IrField → Text
comma_after [] = []
comma_after (f ∷ fields) = literal ", " ∷ []

-- The three ways to call a method, in the class of the client.
unfoldable pub generate_client_method : ℕ → IrInterface → IrMethod → Text
generate_client_method indent_level iface m =
    indentation (indent_level + 1)
    ∷ literal "// "
    ∷ computed m.name
    ∷ literal "\n"
    ∷ indentation (indent_level + 1)
    ∷ literal "void "
    ∷ computed m.name
    ∷ literal "("
    ∷ (write_joined m.parameters (parameter_declaration) (literal ", " ∷ [])
        ++ (comma_after m.parameters
            ++ (callback_type iface.name m
                ++ (literal " callback) const;\n"
                    ∷ indentation (indent_level + 1)
                    ∷ literal "std::future<hasten::runtime::Result<"
                    ∷ (method_result_type iface.name m
                        ++ (literal ">> "
                            ∷ computed m.name
                            ∷ literal "_async("
                            ∷ (write_joined m.parameters (parameter_declaration) (literal ", " ∷ [])
                                ++ (literal ") const;\n"
                                    ∷ indentation (indent_level + 1)
                                    ∷ literal "hasten::runtime::Result<"
                                    ∷ (method_result_type iface.name m
                                        ++ (literal "> "
                                            ∷ computed m.name
                                            ∷ literal "_sync("
                                            ∷ (write_joined m.parameters (parameter_declaration)
                                                  (literal ", " ∷ [])
                                                ++ (literal ") const;\n\n" ∷ []))))))))))))

-- A method of the interface of the service.
unfoldable pub generate_virtual_method : ℕ → IrInterface → IrMethod → Text
generate_virtual_method indent_level iface m =
    indentation (indent_level + 1)
    ∷ literal "virtual hasten::runtime::Result<"
    ∷ (method_result_type iface.name m
        ++ (literal "> "
            ∷ computed m.name
            ∷ literal "("
            ∷ (write_joined m.parameters (parameter_declaration) (literal ", " ∷ [])
                ++ (literal ") = 0;\n" ∷ []))))

unfoldable pub generate_interface : ℕ → IrInterface → Text
generate_interface indent_level iface =
    indentation indent_level
    ∷ literal "class "
    ∷ computed iface.name
    ∷ literal "Client"
    ∷ literal " {\n"
    ∷ indentation indent_level
    ∷ literal "public:\n"
    ∷ indentation (indent_level + 1)
    ∷ literal "// Constructor\n"
    ∷ indentation (indent_level + 1)
    ∷ computed iface.name
    ∷ literal "Client"
    ∷ literal "(std::shared_ptr<hasten::runtime::Channel> channel,\n"
    ∷ indentation (indent_level + 1)
    ∷ literal "     std::shared_ptr<hasten::runtime::Dispatcher> dispatcher);\n\n"
    ∷ (concat (generate_client_method indent_level iface) iface.methods
        ++ (indentation indent_level
            ∷ literal "private:\n"
            ∷ indentation (indent_level + 1)
            ∷ literal "std::shared_ptr<hasten::runtime::Channel> channel_;\n"
            ∷ indentation (indent_level + 1)
            ∷ literal "std::shared_ptr<hasten::runtime::Dispatcher> dispatcher_;\n"
            ∷ indentation indent_level
            ∷ literal "};\n\n"
            ∷ indentation indent_level
            ∷ literal "class "
            ∷ computed iface.name
            ∷ literal " {\n"
            ∷ indentation indent_level
            ∷ literal "public:\n"
            ∷ indentation (indent_level + 1)
            ∷ literal "virtual ~"
            ∷ computed iface.name
            ∷ literal "() = default;\n"
            ∷ (concat (generate_virtual_method indent_level iface) iface.methods
                ++ (indentation indent_level
                    ∷ literal "};\n\n"
                    ∷ indentation indent_level
                    ∷ literal "void bind_"
                    ∷ computed iface.name
                    ∷ literal "(std::shared_ptr<"
                    ∷ computed iface.name
                    ∷ literal "> implementation,\n"
                    ∷ indentation indent_level
                    ∷ literal
                        "             std::shared_ptr<hasten::runtime::Executor> executor = nullptr);\n\n"
                    ∷ indentation indent_level
                    ∷ literal "std::shared_ptr<"
                    ∷ computed iface.name
                    ∷ literal "Client"
                    ∷ literal "> make_"
                    ∷ computed iface.name
                    ∷ literal "_client(std::shared_ptr<hasten::runtime::Channel> channel,\n"
                    ∷ indentation indent_level
                    ∷ literal
                        "                                          std::shared_ptr<hasten::runtime::Dispatcher> dispatcher);\n\n"
                    ∷ []))))

unfoldable pub generate_uds_client_creation : ℕ → IrInterface → Text
generate_uds_client_creation indent_level iface =
    indentation indent_level
    ∷ literal "inline\n"
    ∷ indentation indent_level
    ∷ literal "hasten::runtime::Result<std::shared_ptr<"
    ∷ computed iface.name
    ∷ literal "Client"
    ∷ literal ">>\n"
    ∷ indentation indent_level
    ∷ literal "make_"
    ∷ computed iface.name
    ∷ literal "_client_uds(const std::string& path)\n"
    ∷ indentation indent_level
    ∷ literal "{\n"
    ∷ indentation indent_level
    ∷ indentation 1
    ∷ literal "auto channel_result = hasten::runtime::uds::connect(path);\n"
    ∷ indentation indent_level
    ∷ indentation 1
    ∷ literal "if (!channel_result) {\n"
    ∷ indentation indent_level
    ∷ indentation 1
    ∷ indentation 1
    ∷ literal "return std::unexpected(channel_result.error());\n"
    ∷ indentation indent_level
    ∷ indentation 1
    ∷ literal "}\n"
    ∷ indentation indent_level
    ∷ indentation 1
    ∷ literal "auto dispatcher = hasten::runtime::uds::make_dispatcher();\n"
    ∷ indentation indent_level
    ∷ indentation 1
    ∷ literal "return make_"
    ∷ computed iface.name
    ∷ literal "_client(std::move(channel_result.value()), dispatcher);\n"
    ∷ indentation indent_level
    ∷ literal "}\n\n"
    ∷ []
