-- ===== src/Codegen/Emitter/Fields.antt =====
-- src/codegen/emitter.cpp: the code that puts the value of a field into a message, and that takes
-- it out of one.
mod Encoding
mod Decoding
unfoldable pub use Encoding.*
unfoldable pub use Decoding.*
