-- ===== src/Codegen/Generator/Examples.antt =====
-- A program of one module with an interface, and one without modules.
use hasten.Common.{◌≡◌, refl, [], ◌∷◌, true, none, some}
use hasten.Idl.Ast.{interface_declaration}
use hasten.Frontend.Program.{Program}
use hasten.Codegen.Builder.{build_internal_representation, sort_names}
use hasten.Frontend.Semantic.Passes.{each}
use hasten.Codegen.Emitter.{flat, concat}
use hasten.Codegen.Files.{expected, done, Files, System, write_file_if_changed}
use hasten.Codegen.Generator.{run}
use hasten.Codegen.Generator.Plan.{run_plan}
use hasten.Codegen.Generator.Runs.{Follows, Follows-run}

abbrev permissive : System
permissive = record {
  readable = λ path. true;
  writable = λ path. true;
  written = λ path content. content;
  created = λ path. expected done;
  current_path = "/here";
  absolute = λ path. path;
}

abbrev no_files : Files
no_files path = none

abbrev with_interface : Program
with_interface = record {
  files =
      record {
        path = [];
        content = [];
        position_cache = [];
        syntax = record {
          name = record { parts = "demo" ∷ [] };
          imports = [];
          decls =
              interface_declaration
                record { name = "Echo"; methods = []; attrs = []; position = none }
              ∷ [];
          position = none;
        };
      }
      ∷ [];
}

manifest_written :
    (run permissive record { files = [] } "out" no_files).1 "out/generated.cmake"
    ≡ some
        "# Auto-generated by Hasten. Include this file to register generated targets.\n\nfind_package(hasten_runtime REQUIRED)\n\n"
unfolding run build_internal_representation sort_names each write_file_if_changed flat concat
manifest_written = refl

Follows-run_example :
    Follows permissive
      (run_plan permissive with_interface "out")
      done
      no_files
      (run permissive with_interface "out" no_files)
Follows-run_example = Follows-run permissive with_interface "out" no_files
