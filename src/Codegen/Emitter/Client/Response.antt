-- ===== src/Codegen/Emitter/Client/Response.antt =====
-- src/codegen/emitter.cpp: how a call of a client ends, and the handler of its response.
use hasten.Common.{ℕ, ◌+◌, [], ◌∷◌, ◌++◌}
use hasten.Codegen.Ir.{IrMethod, IrInterface}
use hasten.Codegen.Emitter.{Text, literal, indentation}
use hasten.Codegen.Emitter.Types.{method_result_type}
use hasten.Codegen.Emitter.Client.Request.{
  if_response, client_with_response, client_without_response,
}

-- The handler of the response.
unfoldable pub response_handler : ℕ → IrInterface → IrMethod → Text
response_handler indent_level iface m =
    indentation (indent_level + 1)
    ∷ literal "dispatcher_->set_response_handler(stream_id,\n"
    ∷ indentation (indent_level + 1)
    ∷ literal
        "    [dispatcher = dispatcher_, callback_fn, stream_id](hasten::runtime::rpc::Response response) mutable {\n"
    ∷ indentation (indent_level + 1)
    ∷ literal "        if (dispatcher) {\n"
    ∷ indentation (indent_level + 1)
    ∷ literal "            dispatcher->close_stream(stream_id);\n"
    ∷ indentation (indent_level + 1)
    ∷ literal "        }\n"
    ∷ indentation (indent_level + 1)
    ∷ literal "        if (!callback_fn) {\n"
    ∷ indentation (indent_level + 1)
    ∷ literal "            return;\n"
    ∷ indentation (indent_level + 1)
    ∷ literal "        }\n"
    ∷ indentation (indent_level + 1)
    ∷ literal "        if (response.status != hasten::runtime::rpc::Status::Ok) {\n"
    ∷ indentation (indent_level + 1)
    ∷ literal "            callback_fn(hasten::runtime::unexpected_result<"
    ∷ (method_result_type iface.name m
        ++ (literal ">(hasten::runtime::ErrorCode::InternalError, \"rpc error\"));\n"
            ∷ indentation (indent_level + 1)
            ∷ literal "            return;\n"
            ∷ indentation (indent_level + 1)
            ∷ literal "        }\n"
            ∷ (if_response m (client_with_response indent_level iface m)
                  (client_without_response indent_level iface m)
                ++ (indentation (indent_level + 1) ∷ literal "    });\n" ∷ []))))

-- How a call ends: the frame is sent.
unfoldable pub client_send : ℕ → IrInterface → IrMethod → Text
client_send indent_level iface m =
    indentation (indent_level + 1)
    ∷ literal "hasten::runtime::Frame frame;\n"
    ∷ indentation (indent_level + 1)
    ∷ literal "frame.header.type = hasten::runtime::FrameType::Data;\n"
    ∷ indentation (indent_level + 1)
    ∷ literal "frame.header.flags = hasten::runtime::FrameFlagEndStream;\n"
    ∷ indentation (indent_level + 1)
    ∷ literal "frame.header.stream_id = stream_id;\n"
    ∷ indentation (indent_level + 1)
    ∷ literal "frame.payload = std::move(frame_payload);\n"
    ∷ indentation (indent_level + 1)
    ∷ literal "if (auto res = channel_->send(std::move(frame)); !res) {\n"
    ∷ indentation (indent_level + 2)
    ∷ literal "dispatcher_->take_response_handler(stream_id);\n"
    ∷ indentation (indent_level + 2)
    ∷ literal "dispatcher_->close_stream(stream_id);\n"
    ∷ indentation (indent_level + 2)
    ∷ literal "if (callback_fn) {\n"
    ∷ indentation (indent_level + 2)
    ∷ literal "    callback_fn(std::unexpected(res.error()));\n"
    ∷ indentation (indent_level + 2)
    ∷ literal "}\n"
    ∷ indentation (indent_level + 2)
    ∷ literal "return;\n"
    ∷ indentation (indent_level + 1)
    ∷ literal "}\n"
    ∷ indentation indent_level
    ∷ literal "}\n\n"
    ∷ []
