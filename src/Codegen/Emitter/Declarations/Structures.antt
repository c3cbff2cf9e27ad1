-- ===== src/Codegen/Emitter/Declarations/Structures.antt =====
-- src/codegen/emitter.cpp: the head of a header, enumerations and structures.
use Prim.Native.String.{String}
use hasten.Common.{ℕ, ◌+◌, List, [], ◌∷◌, ◌++◌, Option, none, some}
use hasten.Codegen.Ir.{IrField, IrStruct, IrEnumerator, IrEnum, IrMethod, IrInterface}
use hasten.Codegen.Emitter.{
  Text, literal, computed, indentation, decimal, signed_decimal, concat, write_joined,
}
use hasten.Codegen.Emitter.Types.{map_type, tuple_name}

unfoldable pub generate_header_comment : Text
generate_header_comment =
    literal "// Auto-generated by Hasten. DO NOT EDIT MANUALLY.\n#pragma once\n\n" ∷ []

unfoldable pub generate_header_includes : Text
generate_header_includes =
    literal
      "#include \"hasten/runtime/channel.hpp\"\n#include \"hasten/runtime/executor.hpp\"\n#include \"hasten/runtime/result.hpp\"\n#include \"hasten/runtime/rpc.hpp\"\n#include \"hasten/runtime/serialization/hb1.hpp\"\n#include \"hasten/runtime/serialization/payload.hpp\"\n#include \"hasten/runtime/uds.hpp\"\n\n#include <array>\n#include <cstdint>\n#include <cstring>\n#include <expected>\n#include <functional>\n#include <future>\n#include <map>\n#include <memory>\n#include <optional>\n#include <span>\n#include <string>\n#include <vector>\n\n"
    ∷ []

-- What stands behind the name of an enumerator.
unfoldable pub enumerator_value : Option ℕ → Text
enumerator_value none = []
enumerator_value (some value) = literal " = " ∷ signed_decimal value ∷ []

unfoldable pub to_indented_string : ℕ → IrEnumerator → Text
to_indented_string indent_level e =
    indentation (indent_level + 1) ∷ computed e.name ∷ enumerator_value e.value

unfoldable pub generate_enum : ℕ → IrEnum → Text
generate_enum indent_level enum_ir =
    indentation indent_level
    ∷ literal "enum class "
    ∷ computed enum_ir.name
    ∷ literal " {\n"
    ∷ (write_joined enum_ir.values (to_indented_string indent_level) (literal ",\n" ∷ [])
        ++ (literal "\n" ∷ indentation indent_level ∷ literal "};\n\n" ∷ []))

-- A line of `generate_struct_definition`.
unfoldable pub generate_struct_field : ℕ → IrField → Text
generate_struct_field indent_level f =
    indentation (indent_level + 1)
    ∷ (map_type f.type
        ++ (literal " "
            ∷ computed f.name
            ∷ literal ";  // field id: "
            ∷ decimal f.id
            ∷ literal "\n"
            ∷ []))

unfoldable pub generate_struct_definition : ℕ → String → List IrField → Text
generate_struct_definition indent_level name fields =
    indentation indent_level
    ∷ literal "struct "
    ∷ computed name
    ∷ literal " {\n"
    ∷ (concat (generate_struct_field indent_level) fields
        ++ (indentation indent_level ∷ literal "};\n\n" ∷ []))

-- `TupleInfo::structs`: the methods with named results, under the names of their structures.
unfoldable pub tuple_structs_of : String → List IrMethod → List IrStruct
tuple_structs_of iface_name [] = []
tuple_structs_of iface_name (m ∷ methods) =
    let later = tuple_structs_of iface_name methods in
    elim m.result_fields [
      | [] ↦ later
      | f ∷ fields ↦
          record { name = tuple_name iface_name m; fields = f ∷ fields; attributes = [] } ∷ later
    ]

unfoldable pub build_tuple_info : List IrInterface → List IrStruct
build_tuple_info [] = []
build_tuple_info (iface ∷ interfaces) =
    tuple_structs_of iface.name iface.methods ++ build_tuple_info interfaces

unfoldable pub generate_struct : ℕ → IrStruct → Text
generate_struct indent_level s = generate_struct_definition indent_level s.name s.fields

unfoldable pub generate_tuple_structs : ℕ → List IrInterface → Text
generate_tuple_structs indent_level interfaces =
    concat (generate_struct indent_level) (build_tuple_info interfaces)
