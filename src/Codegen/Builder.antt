-- ===== src/Codegen/Builder.antt =====
-- src/codegen/ir_builder.cpp: how the intermediate representation is made. The map of modules is
-- the list of them in the order in which they were added, each under its own name.
pub mod Names
pub mod Merge
pub mod Unit
mod Examples
use Prim.Native.Char.{code}
use Prim.Native.String as String
use Prim.Native.String.{String, compare}
use Prim.Native.Nat.{Ordering}
use text.Mathlib.Text.{◌==◌ as ◌is◌}
use hasten.Common.{
  List, [], ◌∷◌, ◌++◌, map, Bool, true, false, Option, none, some, ◌==◌, if◌then◌else◌,
}
use hasten.Idl.Ast.{
  AstType, Attribute, Field, Parameter, MethodResult, result_type, result_fields, Enumerator, Enum,
  Struct, Method, Interface, Declaration, constant_declaration, enum_declaration,
  struct_declaration, interface_declaration,
}
use hasten.Frontend.Program.{SourceFile, Program}
use hasten.Frontend.Semantic.Passes.{each, module_name_of}
use hasten.Codegen.Ir.{
  IrAttribute, IrField, IrStruct, IrEnumerator, IrEnum, IrMethod, IrInterface, IrModule,
  CompilationUnit,
}

abbrev pub is_empty : String → Bool
is_empty String.[] = true
is_empty (String.◌∷◌ c s) = false

-- `if (!current.empty()) parts.push_back(current)`
abbrev pub push_part : List String → String → List String
push_part parts current = if is_empty current then parts else parts ++ (current ∷ [])

-- The loop over the characters of a name.
unfoldable pub split_parts : String → List String → String → List String
split_parts String.[] parts current = push_part parts current
split_parts (String.◌∷◌ ch name) parts current =
    split_parts name (if code ch == 0x2E then push_part parts current else parts)
      (if code ch == 0x2E then "" else String.◌++◌ current (String.◌∷◌ ch String.[]))

-- `if (parts.empty() && !name.empty()) parts.push_back(name)`
abbrev pub whole_name : String → List String → List String
whole_name name [] = if is_empty name then [] else name ∷ []
whole_name name (part ∷ parts) = part ∷ parts

unfoldable pub split_module_name : String → List String
split_module_name name = whole_name name (split_parts name [] "")

unfoldable pub make_attribute : Attribute → IrAttribute
make_attribute attr = record { name = attr.name; value = attr.value }

unfoldable pub copy_attributes : List Attribute → List IrAttribute
copy_attributes attrs = map make_attribute attrs

unfoldable pub make_field : Field → IrField
make_field f = record {
  id = f.id;
  name = f.name;
  type = f.type;
  default_value = f.default_value;
  attributes = copy_attributes f.attrs;
}

unfoldable pub make_parameter : Parameter → IrField
make_parameter p = record {
  id = p.id;
  name = p.name;
  type = p.type;
  default_value = p.default_value;
  attributes = copy_attributes p.attrs;
}

unfoldable pub make_struct : Struct → IrStruct
make_struct node = record { name = node.name; fields = map make_field node.fields; attributes = [] }

make_enumerator : Enumerator → IrEnumerator
make_enumerator item = record {
  name = item.name;
  value = item.value;
  attributes = copy_attributes item.attrs;
}

unfoldable pub make_enum : Enum → IrEnum
unfolding make_enumerator
make_enum node = record {
  name = node.name;
  values = map make_enumerator node.items;
  attributes = [];
}

result_fields_of : Option MethodResult → List IrField
result_fields_of (some (result_fields fields)) = map make_field fields
result_fields_of _ = []

result_type_of : Option MethodResult → Option AstType
result_type_of (some (result_type type)) = some type
result_type_of _ = none

unfoldable pub make_method : Method → IrMethod
unfolding result_fields_of result_type_of
make_method m = record {
  name = m.name;
  kind = m.kind;
  parameters = map make_parameter m.params;
  result_fields = result_fields_of m.result;
  result_type = result_type_of m.result;
  attributes = copy_attributes m.attrs;
}

unfoldable pub make_interface : Interface → IrInterface
make_interface iface = record {
  name = iface.name;
  methods = map make_method iface.methods;
  attributes = copy_attributes iface.attrs;
}

-- The body of the loop over the declarations of a file.
unfoldable pub add_declaration : Declaration → IrModule → IrModule
add_declaration (constant_declaration c) ir = ir
add_declaration (struct_declaration s) ir = record {
  name = ir.name;
  namespace_parts = ir.namespace_parts;
  structs = ir.structs ++ (make_struct s ∷ []);
  enums = ir.enums;
  interfaces = ir.interfaces;
}
add_declaration (enum_declaration e) ir = record {
  name = ir.name;
  namespace_parts = ir.namespace_parts;
  structs = ir.structs;
  enums = ir.enums ++ (make_enum e ∷ []);
  interfaces = ir.interfaces;
}
add_declaration (interface_declaration i) ir = record {
  name = ir.name;
  namespace_parts = ir.namespace_parts;
  structs = ir.structs;
  enums = ir.enums;
  interfaces = ir.interfaces ++ (make_interface i ∷ []);
}

-- What a module is when its name is new.
unfoldable pub new_module : String → IrModule
new_module name = record {
  name = name;
  namespace_parts = split_module_name name;
  structs = [];
  enums = [];
  interfaces = [];
}

-- `emplace`, and the loop on what it refers to.
unfoldable pub update_module : String → (IrModule → IrModule) → List IrModule → List IrModule
update_module name change [] = change (new_module name) ∷ []
update_module name change (ir ∷ modules) =
    let later = update_module name change modules in
    if ir.name is name then change ir ∷ modules else ir ∷ later

unfoldable pub add_file : SourceFile → List IrModule → List IrModule
add_file file modules =
    update_module (module_name_of file) (each add_declaration file.syntax.decls) modules

unfoldable pub find_module : String → List IrModule → Option IrModule
find_module name [] = none
find_module name (ir ∷ modules) = if ir.name is name then some ir else find_module name modules

-- `std::sort` of the names: they are not the same.
abbrev pub is_before : String → String → Bool
is_before a b = elim (compare a b) [ Ordering.lt ↦ true | _ ↦ false ]

unfoldable pub insert_name : String → List String → List String
insert_name name [] = name ∷ []
insert_name name (n ∷ names) =
    let later = insert_name name names in if is_before n name then n ∷ later else name ∷ (n ∷ names)

unfoldable pub sort_names : List String → List String
sort_names [] = []
sort_names (name ∷ names) = insert_name name (sort_names names)

abbrev empty_module : IrModule
empty_module = record { name = ""; namespace_parts = []; structs = []; enums = []; interfaces = [] }

-- `modules[name]`
unfoldable pub module_at : List IrModule → String → IrModule
module_at modules name = elim (find_module name modules) [ none ↦ empty_module | some ir ↦ ir ]

abbrev pub ir_name : IrModule → String
ir_name ir = ir.name

unfoldable pub build_internal_representation : Program → CompilationUnit
build_internal_representation program =
    let modules = each add_file program.files [] in
    record { modules = map (module_at modules) (sort_names (map ir_name modules)) }
