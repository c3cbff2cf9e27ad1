-- ===== src/Idl.antt =====
-- src/idl: what the parser of the interface language makes.
pub mod Ast
