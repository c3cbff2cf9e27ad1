-- ===== src/Codegen/Emitter/Nesting/Types.antt =====
-- The texts for types, names and descriptors are closed.
use Prim.Native.String.{String}
use hasten.Common.{
  suc, if◌then◌else◌, ◌≡◌, refl, List, [], ◌∷◌, ◌++◌, Bool, true, false, Option, none, some,
}
use hasten.Idl.Ast.{AstType, primitive, user_type, vector_of, map_of, optional_of}
use hasten.Runtime.Hb1.{
  WireType, varint, zigzag_varint, fixed32, fixed64, length_delimited, capability, other_type,
  ValueKind, unsigned_kind, signed_kind, string_kind, bytes_kind,
}
use hasten.Codegen.Ir.{IrField, IrMethod}
use hasten.Codegen.Emitter.{Text, literal, computed, decimal}
use hasten.Codegen.Emitter.Names.{hash_literal}
use hasten.Codegen.Emitter.Types.{
  map_type, is_scalar, parameter_declaration, describe_type, wire_type_literal, value_kind_literal,
  optional_literal, descriptor_initializer, descriptor_lines, emit_descriptor_array, tuple_name,
  method_result_type,
}
use hasten.Codegen.Emitter.Nesting.{nesting, depth_after, Closed, through}

pub Closed-map_type : (type : AstType) → Closed (map_type type)
unfolding map_type nesting depth_after
Closed-map_type (primitive kind) depth = refl
Closed-map_type (user_type user) depth = refl
Closed-map_type (vector_of element) depth =
    through (map_type element) _ depth _ (Closed-map_type element) refl
Closed-map_type (map_of key value) depth =
    through (map_type key) _ depth _ (Closed-map_type key)
      (through (map_type value) _ depth _ (Closed-map_type value) refl)
Closed-map_type (optional_of inner) depth =
    through (map_type inner) _ depth _ (Closed-map_type inner) refl

pub Closed-parameter_declaration : (f : IrField) → Closed (parameter_declaration f)
unfolding parameter_declaration nesting depth_after
Closed-parameter_declaration f depth = by_test (is_scalar f.type)
  where
    by_test :
        (b : Bool)
        → nesting
            (if b
              then map_type f.type ++ (literal " " ∷ computed f.name ∷ [])
              else literal "const " ∷ (map_type f.type ++ (literal "& " ∷ computed f.name ∷ [])))
            depth
          ≡ some depth
    by_test true = through (map_type f.type) _ depth _ (Closed-map_type f.type) refl
    by_test false = through (map_type f.type) _ depth _ (Closed-map_type f.type) refl

pub Closed-wire_type_literal : (t : WireType) → Closed (wire_type_literal t)
unfolding wire_type_literal nesting depth_after
Closed-wire_type_literal varint depth = refl
Closed-wire_type_literal zigzag_varint depth = refl
Closed-wire_type_literal fixed32 depth = refl
Closed-wire_type_literal fixed64 depth = refl
Closed-wire_type_literal length_delimited depth = refl
Closed-wire_type_literal capability depth = refl
Closed-wire_type_literal (other_type byte) depth = refl

Closed-value_kind_literal : (k : ValueKind) → Closed (value_kind_literal k)
unfolding value_kind_literal nesting depth_after
Closed-value_kind_literal unsigned_kind depth = refl
Closed-value_kind_literal signed_kind depth = refl
Closed-value_kind_literal string_kind depth = refl
Closed-value_kind_literal bytes_kind depth = refl

Closed-optional_literal : (b : Bool) → Closed (optional_literal b)
unfolding optional_literal nesting depth_after
Closed-optional_literal true depth = refl
Closed-optional_literal false depth = refl

Closed-descriptor_initializer : (f : IrField) → Closed (descriptor_initializer f)
unfolding descriptor_initializer decimal nesting depth_after
Closed-descriptor_initializer f depth =
    through (wire_type_literal (describe_type f.type).wire_type) _ _ _
      (Closed-wire_type_literal (describe_type f.type).wire_type)
      (through (optional_literal (describe_type f.type).optional) _ _ _
        (Closed-optional_literal (describe_type f.type).optional)
        (through (value_kind_literal (describe_type f.type).value_kind) _ _ _
          (Closed-value_kind_literal (describe_type f.type).value_kind) refl))

Closed-descriptor_lines :
    (indent : Text) (fields : List IrField)
    → Closed indent
    → Closed (descriptor_lines indent fields)
unfolding descriptor_lines nesting depth_after
Closed-descriptor_lines indent [] indented depth = refl
Closed-descriptor_lines indent (f ∷ []) indented depth =
    through indent _ depth _ indented
      (through (descriptor_initializer f) _ depth _ (Closed-descriptor_initializer f) refl)
Closed-descriptor_lines indent (f ∷ g ∷ fields) indented depth = through indent _ depth _ indented (
    through (descriptor_initializer f) _ depth _ (Closed-descriptor_initializer f)
      (Closed-descriptor_lines indent (g ∷ fields) indented depth))

pub Closed-descriptor_array :
    (indent qualifier name : Text) (fields : List IrField)
    → Closed indent
    → Closed qualifier
    → Closed name
    → Closed (emit_descriptor_array indent qualifier name fields)
unfolding emit_descriptor_array decimal nesting depth_after
Closed-descriptor_array indent qualifier name [] indented qualified named depth =
    through indent _ depth _ indented
      (through qualifier _ depth _ qualified (through name _ depth _ named refl))
Closed-descriptor_array indent qualifier name (f ∷ fields) indented qualified named depth =
    through indent _ depth _ indented (
      through qualifier _ depth _ qualified (
        through name _ depth _ named (
          through (descriptor_lines indent (f ∷ fields)) _ (suc depth) _
            (Closed-descriptor_lines indent (f ∷ fields) indented)
            (through indent _ (suc depth) _ indented refl))))

pub Closed-method_result_type :
    (iface_name : String) (m : IrMethod) → Closed (method_result_type iface_name m)
unfolding method_result_type nesting depth_after
Closed-method_result_type iface_name m depth = by_result m.result_fields m.result_type
  where
    by_result :
        (fields : List IrField) (result : Option AstType)
        → nesting
            (elim fields [
              | f ∷ more ↦ computed (tuple_name iface_name m) ∷ []
              | [] ↦ elim result [ none ↦ literal "void" ∷ [] | some type ↦ map_type type ]
            ])
            depth
          ≡ some depth
    by_result (f ∷ fields) result = refl
    by_result [] none = refl
    by_result [] (some type) = Closed-map_type type depth

pub Closed-hash_literal : (text : String) → Closed (hash_literal text)
unfolding hash_literal decimal nesting depth_after
Closed-hash_literal text depth = refl
