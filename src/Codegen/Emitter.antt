-- ===== src/Codegen/Emitter.antt =====
-- src/codegen/emitter.cpp: the emitter of C++ code. A text is kept as the pieces that it is put
-- together from: what the source has as a literal, and what the program or the level of
-- indentation gives.
pub mod Names
pub mod Types
pub mod Fields
pub mod Declarations
pub mod Metadata
pub mod StructCodec
pub mod RequestCodec
pub mod ResponseCodec
pub mod Client
pub mod Server
pub mod Sources
pub mod Nesting
mod Examples
use Prim.Native.String as String
use Prim.Native.String.{String}
use hasten.Common.{
  ℕ, ◌≡◌, refl, zero, suc, ◌-◌, ◌*◌, ◌/◌, ◌%◌, ◌^◌, List, [], ◌∷◌, ◌++◌, ltb, if◌then◌else◌, get_or,
}

pub data Piece : Type 0 where
  literal computed : String → Piece

abbrev pub Text : Type 0
Text = List Piece

-- The text itself.
unfoldable pub flat : Text → String
flat [] = ""
flat (literal s ∷ text) = String.◌++◌ s (flat text)
flat (computed s ∷ text) = String.◌++◌ s (flat text)

spaces : ℕ → String
spaces zero = ""
spaces (suc n) = String.◌++◌ " " (spaces n)

-- `kIndentWidth` is 4.
unfoldable pub indentation : ℕ → Piece
unfolding spaces
indentation indent_level = computed (spaces (indent_level * 4))

-- The texts of a range, one behind the other.
unfoldable pub concat {ℓ} : {A : Type ℓ} → (A → Text) → List A → Text
concat emit [] = []
concat emit (x ∷ xs) = emit x ++ concat emit xs

unfoldable pub after_each {ℓ} : {A : Type ℓ} → Text → (A → Text) → List A → Text
after_each delimiter transformer [] = []
after_each delimiter transformer (x ∷ xs) =
    delimiter ++ (transformer x ++ after_each delimiter transformer xs)

unfoldable pub write_joined {ℓ} : {A : Type ℓ} → List A → (A → Text) → Text → Text
unfolding after_each
write_joined [] transformer delimiter = []
write_joined (x ∷ range) transformer delimiter =
    transformer x ++ after_each delimiter transformer range

abbrev digit : ℕ → String
digit n = get_or ("0" ∷ "1" ∷ "2" ∷ "3" ∷ "4" ∷ "5" ∷ "6" ∷ "7" ∷ "8" ∷ "9" ∷ []) (n % 10) ""

digits : ℕ → ℕ → String → String
digits zero n later = later
digits (suc fuel) n later =
    let more = digits fuel (n / 10) (String.◌++◌ (digit n) later) in
    if ltb n 10 then String.◌++◌ (digit n) later else more

-- A number on the stream. A number of 64 bits has 20 digits at most.
unfoldable pub decimal : ℕ → Piece
unfolding digits
decimal n = computed (digits 20 n "")

-- A signed number of 64 bits.
unfoldable pub signed_decimal : ℕ → Piece
unfolding digits
signed_decimal n =
    computed
      (if ltb n (2 ^ 63) then digits 20 n "" else String.◌++◌ "-" (digits 20 (2 ^ 64 - n) ""))

one_two :
    flat (indentation 1 ∷ decimal 120 ∷ literal "{\"\n" ∷ signed_decimal (2 ^ 64 - 3) ∷ [])
    ≡ "    120{\"\n-3"
unfolding indentation decimal signed_decimal flat
one_two = refl
