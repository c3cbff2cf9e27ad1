-- ===== src/Codegen/Emitter/Types.antt =====
-- src/codegen/emitter.cpp: types in C++ and on the wire, and the descriptors of fields.
use Prim.Native.String as String
use Prim.Native.String.{String}
use text.Mathlib.Text.{◌==◌ as ◌is◌}
use hasten.Common.{
  List, [], ◌∷◌, ◌++◌, length, Bool, true, false, Option, none, some, if◌then◌else◌,
}
use hasten.Idl.Ast.{
  PrimitiveKind, bool, i8, i16, i32, i64, u8, u16, u32, u64, f32, f64, string, bytes, UserType,
  AstType, primitive, user_type, vector_of, map_of, optional_of, joined,
}
use hasten.Runtime.Hb1.{
  WireType, varint, zigzag_varint, fixed32, fixed64, length_delimited, capability, other_type,
  ValueKind, unsigned_kind, signed_kind, string_kind, bytes_kind,
}
use hasten.Codegen.Ir.{IrField, IrStruct, IrMethod, IrModule}
use hasten.Codegen.Emitter.{Text, literal, computed, decimal, write_joined}

abbrev primitive_name : PrimitiveKind → String
primitive_name bool = "bool"
primitive_name i8 = "std::int8_t"
primitive_name i16 = "std::int16_t"
primitive_name i32 = "std::int32_t"
primitive_name i64 = "std::int64_t"
primitive_name u8 = "std::uint8_t"
primitive_name u16 = "std::uint16_t"
primitive_name u32 = "std::uint32_t"
primitive_name u64 = "std::uint64_t"
primitive_name f32 = "float"
primitive_name f64 = "double"
primitive_name string = "std::string"
primitive_name bytes = "std::vector<std::uint8_t>"

-- `TypeMapper`
unfoldable pub map_type : AstType → Text
map_type (primitive kind) = computed (primitive_name kind) ∷ []
map_type (user_type user) = computed (joined "::" user.name.parts) ∷ []
map_type (vector_of element) = literal "std::vector<" ∷ (map_type element ++ (literal ">" ∷ []))
map_type (map_of key value) =
    literal "std::map<" ∷ (map_type key ++ (literal ", " ∷ (map_type value ++ (literal ">" ∷ []))))
map_type (optional_of inner) = literal "std::optional<" ∷ (map_type inner ++ (literal ">" ∷ []))

-- The structures of a module by their names. The first one with a name is kept.
unfoldable pub lookup_struct : String → List IrStruct → Option IrStruct
lookup_struct name [] = none
lookup_struct name (s ∷ structs) = if s.name is name then some s else lookup_struct name structs

last_part : String → List String → String
last_part part [] = part
last_part part (p ∷ parts) = last_part p parts

unfoldable pub find_struct : List IrStruct → UserType → Option IrStruct
unfolding last_part
find_struct lookup user = elim user.name.parts [
  | [] ↦ none
  | part ∷ parts ↦ lookup_struct (last_part part parts) lookup
]

abbrev pub unwrap_optional_type : AstType → AstType
unwrap_optional_type (optional_of inner) = inner
unwrap_optional_type type = type

abbrev pub is_scalar : AstType → Bool
is_scalar (primitive string) = false
is_scalar (primitive bytes) = false
is_scalar (primitive _) = true
is_scalar _ = false

unfoldable pub parameter_declaration : IrField → Text
parameter_declaration f =
    if is_scalar f.type
    then map_type f.type ++ (literal " " ∷ computed f.name ∷ [])
    else literal "const " ∷ (map_type f.type ++ (literal "& " ∷ computed f.name ∷ []))

unfoldable pub open_namespaces : IrModule → Text
open_namespaces ir =
    literal "namespace "
    ∷ (write_joined ir.namespace_parts (λ part. computed part ∷ []) (literal "::" ∷ [])
        ++ (literal " {\n" ∷ []))

unfoldable pub close_namespaces : IrModule → Text
close_namespaces ir =
    literal "}  // namespace "
    ∷ (write_joined ir.namespace_parts (λ part. computed part ∷ []) (literal "::" ∷ [])
        ++ (literal "\n" ∷ []))

pub record Hb1FieldInfo : Type 0 where
  pub wire_type : WireType
  pub value_kind : ValueKind
  pub optional : Bool

abbrev pub primitive_wire_type : PrimitiveKind → WireType
primitive_wire_type bool = varint
primitive_wire_type u8 = varint
primitive_wire_type u16 = varint
primitive_wire_type u32 = varint
primitive_wire_type u64 = varint
primitive_wire_type i8 = zigzag_varint
primitive_wire_type i16 = zigzag_varint
primitive_wire_type i32 = zigzag_varint
primitive_wire_type i64 = zigzag_varint
primitive_wire_type f32 = fixed32
primitive_wire_type f64 = fixed64
primitive_wire_type string = length_delimited
primitive_wire_type bytes = length_delimited

abbrev pub primitive_value_kind : PrimitiveKind → ValueKind
primitive_value_kind i8 = signed_kind
primitive_value_kind i16 = signed_kind
primitive_value_kind i32 = signed_kind
primitive_value_kind i64 = signed_kind
primitive_value_kind string = string_kind
primitive_value_kind bytes = bytes_kind
primitive_value_kind _ = unsigned_kind

unfoldable pub describe_type : AstType → Hb1FieldInfo
describe_type (primitive kind) = record {
  wire_type = primitive_wire_type kind;
  value_kind = primitive_value_kind kind;
  optional = false;
}
describe_type (optional_of inner) = record {
  wire_type = (describe_type inner).wire_type;
  value_kind = (describe_type inner).value_kind;
  optional = true;
}
describe_type _ = record { wire_type = length_delimited; value_kind = bytes_kind; optional = false }

unfoldable pub wire_type_literal : WireType → Text
wire_type_literal varint = literal "hasten::runtime::hb1::WireType::Varint" ∷ []
wire_type_literal zigzag_varint = literal "hasten::runtime::hb1::WireType::ZigZagVarint" ∷ []
wire_type_literal fixed32 = literal "hasten::runtime::hb1::WireType::Fixed32" ∷ []
wire_type_literal fixed64 = literal "hasten::runtime::hb1::WireType::Fixed64" ∷ []
wire_type_literal length_delimited = literal "hasten::runtime::hb1::WireType::LengthDelimited" ∷ []
wire_type_literal capability = literal "hasten::runtime::hb1::WireType::Capability" ∷ []
wire_type_literal (other_type byte) = literal "hasten::runtime::hb1::WireType::Varint" ∷ []

unfoldable pub value_kind_literal : ValueKind → Text
value_kind_literal unsigned_kind = literal "hasten::runtime::hb1::ValueKind::Unsigned" ∷ []
value_kind_literal signed_kind = literal "hasten::runtime::hb1::ValueKind::Signed" ∷ []
value_kind_literal string_kind = literal "hasten::runtime::hb1::ValueKind::String" ∷ []
value_kind_literal bytes_kind = literal "hasten::runtime::hb1::ValueKind::Bytes" ∷ []

unfoldable pub optional_literal : Bool → Text
optional_literal true = literal "true" ∷ []
optional_literal false = literal "false" ∷ []

unfoldable pub descriptor_initializer : IrField → Text
descriptor_initializer f =
    literal "{"
    ∷ decimal f.id
    ∷ literal ", "
    ∷ (wire_type_literal (describe_type f.type).wire_type
        ++ (literal ", "
            ∷ (optional_literal (describe_type f.type).optional
                ++ (literal ", "
                    ∷ (value_kind_literal (describe_type f.type).value_kind
                        ++ (literal "}" ∷ []))))))

-- The loop over the fields: a comma behind each but the last.
unfoldable pub descriptor_lines : Text → List IrField → Text
descriptor_lines indent [] = []
descriptor_lines indent (f ∷ []) =
    indent ++ (literal "    " ∷ (descriptor_initializer f ++ (literal "\n" ∷ [])))
descriptor_lines indent (f ∷ g ∷ fields) =
    indent
    ++ (literal "    "
        ∷ (descriptor_initializer f ++ (literal ",\n" ∷ descriptor_lines indent (g ∷ fields))))

unfoldable pub emit_descriptor_array : Text → Text → Text → List IrField → Text
emit_descriptor_array indent qualifier name fields =
    indent
    ++ (qualifier
        ++ (literal "std::array<hasten::runtime::hb1::FieldDescriptor, "
            ∷ decimal (length fields)
            ∷ literal "> "
            ∷ (name
                ++ (literal " = {" ∷ elim fields [
                  | [] ↦ literal "};\n" ∷ []
                  | f ∷ more ↦
                      literal "\n"
                      ∷ (descriptor_lines indent (f ∷ more) ++ (indent ++ (literal "};\n" ∷ [])))
                ]))))

-- The name of the structure for the results of a method: `build_tuple_info`.
abbrev pub tuple_name : String → IrMethod → String
tuple_name iface_name m = String.◌++◌ iface_name (String.◌++◌ m.name "Result")

-- The methods are told apart by their addresses, so that each one with named results is found.
unfoldable pub method_result_type : String → IrMethod → Text
method_result_type iface_name m = elim m.result_fields [
  | f ∷ fields ↦ computed (tuple_name iface_name m) ∷ []
  | [] ↦ elim m.result_type [ none ↦ literal "void" ∷ [] | some type ↦ map_type type ]
]
