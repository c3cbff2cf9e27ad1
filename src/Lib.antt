-- ===== src/Lib.antt =====
-- A model of hasten, a framework for local RPC in C++: an interface description language with a
-- compiler, and a runtime for the code that the compiler generates. Of the compiler these parts are
-- modelled:
--
--   Idl/Ast              src/idl/include/idl/ast.hpp: the syntax tree.
--   Frontend             src/frontend/frontend.cpp: parse_program and parse_imports; read_file and
--                        parse_single_file (Files), over a parameter that is the parser.
--                        Its position cache is what its iterators find after the text is moved.
--   Frontend/Program     source_file.hpp, program.hpp, diagnostic.hpp, diagnostic.cpp: the files of a
--                        program, the sink of diagnostics, the place of a node (Locations).
--   Frontend/Ids         semantic/utility.hpp: the checks of the ids of fields and parameters.
--   Frontend/Semantic    src/frontend/semantic: the context with its indices, the checks of types, the
--                        five passes (Passes) and the validator that runs them (Validator). The other
--                        files there say when a program is valid, and why the passes agree with it.
--   Codegen/Ir           src/codegen/ir.hpp: the intermediate representation.
--   Codegen/Builder      ir_builder.cpp: its construction from a program.
--   Codegen/Emitter      emitter.cpp: the text of the header, of the clients and of the servers. There
--                        is a file for each group of functions; Nesting follows the braces.
--   Codegen/Files        file_writer.cpp: a file is written if its content changes.
--   Codegen/Generator    generator.cpp, and emit_module of emitter.cpp (Modules): the files of a
--                        program, over what the system answers.
--
-- The frontend hands a program to the validator, and the generator takes it: the builder merges the
-- files of each module, and the emitter prints the modules.
--
-- The runtime is src/runtime:
--
--   Runtime/Result       error.hpp, result.hpp: error codes, errors, and results. A result has a third
--                        form, a fault, for what C++ leaves undefined.
--   Runtime/Frame        frame.hpp, frame.cpp: the header of 24 bytes and its checksum (Frame/Crc).
--   Runtime/Payload      serialization/payload.hpp: sinks and sources of bytes. A write returns the
--                        buffer too, a read the source after it.
--   Runtime/Varint       the loop that writes variable-length numbers, which two files have.
--   Runtime/Hb1          serialization/hb1.hpp, hb1.cpp: Writer, Reader, and whole messages (Message).
--                        A span says where its bytes lie, and one into a scratch buffer says at which
--                        use of the buffer it was made, so that a read of a cleared buffer shows.
--   Runtime/Rpc          rpc.hpp, rpc.cpp: requests, responses, the registry of handlers.
--   Runtime/Wire         context.cpp: the payloads of request and response frames.
--   Runtime/Dispatcher   uds.cpp, SimpleDispatcher: the ids of streams, the handlers that wait.
--   Runtime/Uds          uds.cpp, UdsChannel: send and receive over a socket. What the system answers
--                        to each call of write, poll and read is a script. Sockets has the calls that
--                        make sockets and close them, with the descriptors that are open.
--   Runtime/Context      context.cpp: sessions, the queue of frames, the handlers of frames and the
--                        loop that calls them (Reactor), start, stop and join (Lifecycle), the loop of
--                        a session (Loop), connect, listen and accept_loop (Connections).
--   Runtime/Executor     executor.cpp: the thread pool, a step for each section under its mutex.
--
-- A session's thread (Loop) receives frames from its channel (Uds) and puts them into the queue of the
-- context; the loop takes them out. A request is parsed (Wire) and given to the handler that is
-- registered for its interface (Rpc); the response, which the handler may give before it returns or
-- later, goes back on the same stream. At the client the dispatcher gives up the callback that waits on
-- the stream, and the executor runs it.
--
-- A byte is a number below 256, a buffer a list of bytes, a string of a message a list of bytes, and a
-- w-bit number is a number whose operations keep their `% 2 ^ w`. A signed number is its pattern. Names
-- of the syntax tree are texts of characters, a generated text is a list of pieces, literal or
-- computed. A std::map is the list of its entries in the order of the map.
--
-- The loop of encode_varint ends by recursion on the order of the numbers. That of decode_message has
-- a round more than the payload has bytes as its fuel, which is enough, for each round takes a byte.
-- The depth of imports is fuel too, and as much as there are files is enough. A number is printed with
-- at most 20 digits, which are enough for 64 bits. Every other loop is by recursion on its data.
--
-- The loop of a session has a round for each byte that has come and one more as its fuel, which is
-- enough, for each frame takes bytes. That of accept_loop goes along a list of rounds.
--
-- Not modelled: what is written to stderr, the pause of accept_loop, and the threads as such: a
-- context, a dispatcher and an executor are changed by steps in any order. A session that is added
-- is numbered, put into the list, started and sent the settings in four steps (Lifecycle, Sessions).
-- The parser (src/idl) is grammar rules in the terms of Boost.Spirit, which is not part of the
-- repository; the dump of the syntax tree as JSON is debug output; the command line (src/cli) is
-- options of Boost and output.
pub mod Codegen
pub mod Common
pub mod Frontend
pub mod Idl
pub mod Runtime
