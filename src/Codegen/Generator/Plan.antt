-- ===== src/Codegen/Generator/Plan.antt =====
-- What a run of the generator is to write: paths with their contents, in order.
use Prim.Native.String as String
use Prim.Native.String.{String}
use hasten.Common.{List, [], ◌∷◌, ◌++◌, map}
use hasten.Frontend.Program.{Program}
use hasten.Codegen.Ir.{IrInterface, IrModule}
use hasten.Codegen.Builder.{build_internal_representation}
use hasten.Codegen.Emitter.{flat}
use hasten.Codegen.Emitter.Names.{module_base_name}
use hasten.Codegen.Emitter.Sources.{generate_header, generate_client_source, generate_server_source}
use hasten.Codegen.Files.{System}
use hasten.Codegen.Generator.Modules.{OutputFiles, in_directory, module_directory, artifacts_of}
use hasten.Codegen.Generator.{ModuleTargets, targets_of, build_cmake_manifest, output_root}

abbrev pub Plan : Type 0
Plan = List (String × String)

abbrev pub directory_of : String → IrModule → String
directory_of root ir = module_directory root ir.namespace_parts

abbrev pub header_of : String → IrModule → String
header_of root ir =
    in_directory (directory_of root ir) (String.◌++◌ (module_base_name ir) ".gen.hpp")

-- The sources of the client and of the server of an interface.
abbrev pub sources_of : String → IrModule → IrInterface → Plan
sources_of root ir iface =
    let artifacts = artifacts_of (directory_of root ir) (module_base_name ir) iface in
    (artifacts.client_source, flat (generate_client_source ir iface))
    ∷ (artifacts.server_source, flat (generate_server_source ir iface))
    ∷ []

abbrev pub all_sources : String → IrModule → List IrInterface → Plan
all_sources root ir [] = []
all_sources root ir (iface ∷ ifaces) = sources_of root ir iface ++ all_sources root ir ifaces

abbrev pub module_plan : String → IrModule → Plan
module_plan root ir =
    (header_of root ir, flat (generate_header ir)) ∷ all_sources root ir ir.interfaces

abbrev pub modules_plan : String → List IrModule → Plan
modules_plan root [] = []
modules_plan root (ir ∷ modules) = module_plan root ir ++ modules_plan root modules

-- What the manifest tells of a module.
abbrev pub outputs_of : String → IrModule → OutputFiles
outputs_of root ir = record {
  header = header_of root ir;
  include_dir = directory_of root ir;
  module_base = module_base_name ir;
  interfaces = map (artifacts_of (directory_of root ir) (module_base_name ir)) ir.interfaces;
}

abbrev pub all_targets : System → String → List IrModule → List ModuleTargets
all_targets system root modules = map (λ ir. targets_of system ir (outputs_of root ir)) modules

abbrev pub manifest_of : System → String → List IrModule → String
manifest_of system root modules = flat (build_cmake_manifest (all_targets system root modules))

abbrev pub run_plan : System → Program → String → Plan
run_plan system program output_dir =
    let root = output_root system output_dir in
    let modules = (build_internal_representation program).modules in
    modules_plan root modules
    ++ ((in_directory root "generated.cmake", manifest_of system root modules) ∷ [])
