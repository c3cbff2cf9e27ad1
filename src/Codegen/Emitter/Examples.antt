-- ===== src/Codegen/Emitter/Examples.antt =====
-- A module with a structure and a service.
use hasten.Common.{◌≡◌, refl, [], ◌∷◌, none, some}
use hasten.Idl.Ast.{i32, string, primitive, optional_of, rpc}
use hasten.Codegen.Ir.{IrField, IrMethod, IrInterface, IrModule}
use hasten.Codegen.Emitter.{flat, write_joined, after_each}
use hasten.Codegen.Emitter.Types.{open_namespaces}
use hasten.Codegen.Emitter.Sources.{generate_header, generate_client_source, generate_server_source}
use hasten.Codegen.Emitter.Nesting.{nesting}
use hasten.Codegen.Emitter.Nesting.Sources.{nesting-generate}

abbrev text_field : IrField
text_field = record {
  id = 1;
  name = "text";
  type = primitive string;
  default_value = none;
  attributes = [];
}

abbrev size_field : IrField
size_field = record {
  id = 2;
  name = "size";
  type = optional_of (primitive i32);
  default_value = none;
  attributes = [];
}

abbrev echo_method : IrMethod
echo_method = record {
  name = "say";
  kind = rpc;
  parameters = text_field ∷ size_field ∷ [];
  result_fields = text_field ∷ [];
  result_type = none;
  attributes = [];
}

abbrev echo_interface : IrInterface
echo_interface = record { name = "Echo"; methods = echo_method ∷ []; attributes = [] }

abbrev echo_module : IrModule
echo_module = record {
  name = "demo.echo";
  namespace_parts = "demo" ∷ "echo" ∷ [];
  structs = record { name = "Line"; fields = text_field ∷ size_field ∷ []; attributes = [] } ∷ [];
  enums = [];
  interfaces = echo_interface ∷ [];
}

opened : flat (open_namespaces echo_module) ≡ "namespace demo::echo {\n"
unfolding flat open_namespaces write_joined after_each
opened = refl

nesting-generate_example :
    (nesting (generate_header echo_module) 0 ≡ some 0)
    × (nesting (generate_client_source echo_module echo_interface) 0 ≡ some 0)
    × (nesting (generate_server_source echo_module echo_interface) 0 ≡ some 0)
nesting-generate_example = nesting-generate echo_module echo_interface
