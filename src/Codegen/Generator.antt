-- ===== src/Codegen/Generator.antt =====
-- src/codegen/generator.cpp: the manifest for CMake, and the run over a program.
pub mod Modules
mod Plan
mod Runs
mod Examples
use Prim.Native.String as String
use Prim.Native.String.{String}
use text.Mathlib.Text.{◌==◌ as ◌is◌}
use hasten.Common.{List, [], ◌∷◌, ◌++◌, if◌then◌else◌}
use hasten.Frontend.Program.{Program}
use hasten.Codegen.Ir.{IrModule}
use hasten.Codegen.Builder.{build_internal_representation}
use hasten.Codegen.Emitter.{Text, literal, computed, flat, concat}
use hasten.Codegen.Files.{expected, Done, System, OverFiles, write_file_if_changed}
use hasten.Codegen.Generator.Modules.{
  InterfaceArtifacts, OutputFiles, then_do, in_directory, with_message, emit_module,
}

pub record ModuleTargets : Type 0 where
  pub module_name : String
  pub base_name : String
  pub targets_dir : String
  pub targets_header : String
  pub targets_interfaces : List InterfaceArtifacts

-- The name of a target of an interface.
abbrev target_name : String → InterfaceArtifacts → String → String
target_name base iface ending =
    String.◌++◌ "hasten_"
      (String.◌++◌ base (String.◌++◌ "_" (String.◌++◌ iface.interface_name ending)))

library_target : String → String → String → Text
library_target target source common_target =
    literal "if(NOT TARGET "
    ∷ computed target
    ∷ literal ")\n"
    ∷ literal "  add_library("
    ∷ computed target
    ∷ literal " OBJECT\n"
    ∷ literal "      \""
    ∷ computed source
    ∷ literal "\")\n"
    ∷ literal "  target_link_libraries("
    ∷ computed target
    ∷ literal " PUBLIC "
    ∷ computed common_target
    ∷ literal " hasten_runtime::hasten_runtime)\n"
    ∷ literal "endif()\n\n"
    ∷ []

interface_targets : String → String → InterfaceArtifacts → Text
unfolding library_target
interface_targets base common_target iface =
    library_target (target_name base iface "_client") iface.client_source common_target
    ++ library_target (target_name base iface "_server") iface.server_source common_target

common_targets : ModuleTargets → String → Text
unfolding interface_targets
common_targets targets common_target =
    literal "\n# Module "
    ∷ computed targets.module_name
    ∷ literal "\n"
    ∷ literal "if(NOT TARGET "
    ∷ computed common_target
    ∷ literal ")\n"
    ∷ literal "  add_library("
    ∷ computed common_target
    ∷ literal " INTERFACE)\n"
    ∷ literal "  target_include_directories("
    ∷ computed common_target
    ∷ literal " INTERFACE \""
    ∷ computed targets.targets_dir
    ∷ literal "\")\n"
    ∷ literal "endif()\n"
    ∷ concat (interface_targets targets.base_name common_target) targets.targets_interfaces

-- A module without interfaces has no targets.
module_targets : ModuleTargets → Text
unfolding common_targets
module_targets targets = elim targets.targets_interfaces [
  | [] ↦ []
  | iface ∷ ifaces ↦
      common_targets targets (String.◌++◌ "hasten_" (String.◌++◌ targets.base_name "_common"))
]

unfoldable pub build_cmake_manifest : List ModuleTargets → Text
unfolding module_targets
build_cmake_manifest targets =
    literal "# Auto-generated by Hasten. Include this file to register generated targets.\n\n"
    ∷ literal "find_package(hasten_runtime REQUIRED)\n\n"
    ∷ concat module_targets targets

absolute_artifacts : System → List InterfaceArtifacts → List InterfaceArtifacts
absolute_artifacts system [] = []
absolute_artifacts system (iface ∷ ifaces) =
    record {
      interface_name = iface.interface_name;
      client_source = system.absolute iface.client_source;
      server_source = system.absolute iface.server_source;
    }
    ∷ absolute_artifacts system ifaces

unfoldable pub targets_of : System → IrModule → OutputFiles → ModuleTargets
unfolding absolute_artifacts
targets_of system ir emitted = record {
  module_name = ir.name;
  base_name = emitted.module_base;
  targets_dir = system.absolute emitted.include_dir;
  targets_header = system.absolute emitted.header;
  targets_interfaces = absolute_artifacts system emitted.interfaces;
}

unfoldable pub emit_modules : System → String → List IrModule → OverFiles (List ModuleTargets)
unfolding emit_module targets_of
emit_modules system root [] files = (expected [], files)
emit_modules system root (ir ∷ modules) files =
    then_do (emit_module system root ir files) (λ emitted files.
      then_do (emit_modules system root modules files)
        (λ targets files. (expected (targets_of system ir emitted ∷ targets), files)))

-- The root of the output: the current directory, where no directory is given.
abbrev pub output_root : System → String → String
output_root system output_dir = if output_dir is "" then system.current_path else output_dir

-- `Generator::run`
unfoldable pub run : System → Program → String → OverFiles Done
unfolding emit_modules build_cmake_manifest
run system program output_dir files =
    let root = output_root system output_dir in
    then_do (with_message "Failed to create output directory: " (system.created root), files)
      (λ _ files.
        then_do (emit_modules system root (build_internal_representation program).modules files)
          (λ targets files.
            write_file_if_changed system (in_directory root "generated.cmake")
              (expected (flat (build_cmake_manifest targets))) files))
