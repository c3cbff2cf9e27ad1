-- ===== src/Codegen.antt =====
-- src/codegen: the intermediate representation that the generator makes of a program.
pub mod Ir
pub mod Builder
pub mod Emitter
pub mod Files
pub mod Generator
