-- ===== src/Codegen/Builder/Examples.antt =====
-- Two files of one module, and the name of a module.
use Prim.Native.String.{String}
use hasten.Common.{◌≡◌, refl, List, [], ◌∷◌, none}
use hasten.Idl.Ast.{QualifiedIdentifier, Declaration, enum_declaration, to_string}
use hasten.Frontend.Program.{SourceFile, Program}
use hasten.Codegen.Builder.{find_module, split_module_name, build_internal_representation}
use hasten.Codegen.Builder.Merge.{merged}
use hasten.Codegen.Builder.Unit.{find_module-build}
use hasten.Common.Bools.{all}
use hasten.Codegen.Builder.Names.{dotless, split_module_name-to_string}

abbrev browser : QualifiedIdentifier
browser = record { parts = "browser" ∷ "v1" ∷ [] }

abbrev enum_named : String → Declaration
enum_named name = enum_declaration record { name = name; items = []; position = none }

abbrev file_with : List Declaration → SourceFile
file_with decls = record {
  path = [];
  content = [];
  position_cache = [];
  syntax = record { name = browser; imports = []; decls = decls; position = none };
}

abbrev two_files : Program
two_files = record {
  files = file_with (enum_named "Color" ∷ []) ∷ file_with (enum_named "Kind" ∷ []) ∷ [];
}

find_module-build_example :
    find_module "browser.v1" (build_internal_representation two_files).modules
    ≡ merged "browser.v1" two_files.files
find_module-build_example = find_module-build "browser.v1" two_files

name_split : split_module_name (to_string browser) ≡ "browser" ∷ "v1" ∷ []
unfolding all dotless
name_split = split_module_name-to_string browser refl
