-- ===== src/Codegen/Emitter/Names.antt =====
-- src/codegen/emitter.cpp: the names and the ids that the emitter makes. The bytes of a name are its
-- characters, since an identifier of the language is ASCII.
use Prim.Native.Char.{Char, code}
use Prim.Native.String as String
use Prim.Native.String.{String}
use hasten.Common.{
  ℕ, ◌*◌, ◌%◌, ◌^◌, bit_xor, [], ◌∷◌, Bool, true, ◌&&◌, ◌||◌, leb, ◌==◌, if◌then◌else◌,
}
use hasten.Idl.Ast.{joined}
use hasten.Codegen.Ir.{IrModule}
use hasten.Codegen.Emitter.{Text, literal, decimal}

abbrev fnv_offset : ℕ
fnv_offset = 1469598103934665603

abbrev fnv_prime : ℕ
fnv_prime = 1099511628211

-- The loop over the characters.
hash_from : ℕ → String → ℕ
hash_from hash String.[] = hash
hash_from hash (String.◌∷◌ c text) = hash_from (bit_xor hash (code c) * fnv_prime % 2 ^ 64) text

unfoldable pub stable_hash : String → ℕ
unfolding hash_from
stable_hash text = hash_from fnv_offset text

unfoldable pub hash_literal : String → Text
hash_literal text = decimal (stable_hash text) ∷ literal "ULL" ∷ []

abbrev pub is_digit : ℕ → Bool
is_digit c = leb 0x30 c && leb c 0x39

abbrev pub is_alnum : ℕ → Bool
is_alnum c = (is_digit c || (leb 0x41 c && leb c 0x5A)) || (leb 0x61 c && leb c 0x7A)

-- What the loop of `sanitize_identifier` puts for a character.
abbrev pub sanitized_char : Char → String
sanitized_char ch =
    if is_alnum (code ch) || code ch == 0x5F
    then (if code ch == 0x2E then "_" else String.◌∷◌ ch String.[])
    else "_"

unfoldable pub sanitized : String → String
sanitized String.[] = ""
sanitized (String.◌∷◌ ch name) = String.◌++◌ (sanitized_char ch) (sanitized name)

-- `result.empty() || std::isdigit(result.front())`
abbrev pub needs_front : String → Bool
needs_front String.[] = true
needs_front (String.◌∷◌ ch name) = is_digit (code ch)

unfoldable pub sanitize_identifier : String → String
sanitize_identifier name =
    if needs_front (sanitized name) then String.◌++◌ "_" (sanitized name) else sanitized name

unfoldable pub qualified_symbol : IrModule → String → String
qualified_symbol ir symbol = elim ir.namespace_parts [
  | [] ↦ symbol
  | part ∷ parts ↦ String.◌++◌ (joined "::" (part ∷ parts)) (String.◌++◌ "::" symbol)
]

unfoldable pub encode_struct_helper : String → String
encode_struct_helper struct_name = String.◌++◌ "encode_struct_" (sanitize_identifier struct_name)

unfoldable pub decode_struct_helper : String → String
decode_struct_helper struct_name = String.◌++◌ "decode_struct_" (sanitize_identifier struct_name)

unfoldable pub method_helper_prefix : String → String → String
method_helper_prefix iface_name method_name =
    sanitize_identifier (String.◌++◌ iface_name (String.◌++◌ "_" method_name))

unfoldable pub module_base_name : IrModule → String
module_base_name ir = elim ir.namespace_parts [
  | [] ↦ ir.name
  | part ∷ parts ↦ joined "_" (part ∷ parts)
]
