-- ===== src/Codegen/Generator/Modules.antt =====
-- The end of src/codegen/emitter.cpp: the files of a module. A path is a text, and `/` stands between
-- its parts.
use Prim.Native.String as String
use Prim.Native.String.{String}
use hasten.Common.{List, [], ◌∷◌}
use hasten.Codegen.Ir.{IrInterface, IrModule}
use hasten.Codegen.Emitter.{flat}
use hasten.Codegen.Emitter.Names.{module_base_name}
use hasten.Codegen.Emitter.Sources.{generate_header, generate_client_source, generate_server_source}
use hasten.Codegen.Files.{
  Expected, expected, unexpected, Files, System, OverFiles, write_file_if_changed,
}

pub record InterfaceArtifacts : Type 0 where
  pub interface_name : String
  pub client_source : String
  pub server_source : String

pub record OutputFiles : Type 0 where
  pub header : String
  pub include_dir : String
  pub module_base : String
  pub interfaces : List InterfaceArtifacts

-- The return of an error, and what is done behind a success.
abbrev pub then_do : {A B : Type 0} → Expected A × Files → (A → OverFiles B) → Expected B × Files
then_do (unexpected message, files) next = (unexpected message, files)
then_do (expected a, files) next = next a files

abbrev pub in_directory : String → String → String
in_directory dir part = String.◌++◌ dir (String.◌++◌ "/" part)

unfoldable pub module_directory : String → List String → String
module_directory dir [] = dir
module_directory dir (part ∷ parts) = module_directory (in_directory dir part) parts

-- "{base}_{name}_client.gen.cpp"
abbrev source_path : String → String → String → String → String
source_path dir base name ending =
    in_directory dir (String.◌++◌ base (String.◌++◌ "_" (String.◌++◌ name ending)))

abbrev pub artifacts_of : String → String → IrInterface → InterfaceArtifacts
artifacts_of dir base iface = record {
  interface_name = iface.name;
  client_source = source_path dir base iface.name "_client.gen.cpp";
  server_source = source_path dir base iface.name "_server.gen.cpp";
}

unfoldable pub emit_interface :
    System → IrModule → String → String → IrInterface → OverFiles InterfaceArtifacts
emit_interface system ir dir base iface files =
    then_do
      (write_file_if_changed system (artifacts_of dir base iface).client_source
        (expected (flat (generate_client_source ir iface))) files)
      (λ _ files.
        then_do
          (write_file_if_changed system (artifacts_of dir base iface).server_source
            (expected (flat (generate_server_source ir iface))) files)
          (λ _ files. (expected (artifacts_of dir base iface), files)))

-- The loop over the interfaces, up to the first error.
unfoldable pub emit_interfaces :
    System → IrModule → String → String → List IrInterface → OverFiles (List InterfaceArtifacts)
unfolding emit_interface
emit_interfaces system ir dir base [] files = (expected [], files)
emit_interfaces system ir dir base (iface ∷ ifaces) files =
    then_do (emit_interface system ir dir base iface files) (λ artifacts files.
      then_do (emit_interfaces system ir dir base ifaces files)
        (λ more files. (expected (artifacts ∷ more), files)))

abbrev pub with_message : {A : Type 0} → String → Expected A → Expected A
with_message words (expected a) = expected a
with_message words (unexpected message) = unexpected (String.◌++◌ words message)

unfoldable pub emit_module : System → String → IrModule → OverFiles OutputFiles
unfolding emit_interfaces module_directory
emit_module system root ir files =
    let dir = module_directory root ir.namespace_parts in
    let base = module_base_name ir in
    then_do
      (
        with_message (String.◌++◌ "Failed to create directory '" (String.◌++◌ dir "': "))
            (system.created dir),
        files,
      )
      (λ _ files.
        then_do
          (write_file_if_changed system (in_directory dir (String.◌++◌ base ".gen.hpp"))
            (expected (flat (generate_header ir))) files)
          (λ _ files.
            then_do (emit_interfaces system ir dir base ir.interfaces files) (λ interfaces files. (
              expected record {
                header = in_directory dir (String.◌++◌ base ".gen.hpp");
                include_dir = dir;
                module_base = base;
                interfaces = interfaces;
              },
              files,
            ))))
