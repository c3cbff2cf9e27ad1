-- ===== src/Codegen/Builder/Names.antt =====
-- The parts of a module's name: what a name is put together from is what it is split into.
use Prim.Native.Char.{code}
use Prim.Native.String as String
use Prim.Native.String.{String}
use text.Mathlib.TextLemmas.{
  append_assoc as text_assoc, append-nil as text_nil, nil-append, cons-append,
}
use hasten.Common.Bools.{all, left_of_both, right_of_both, false_of_not}
use hasten.Common.{
  ◌≡◌, refl, ◌∙◌, ap, List, [], ◌∷◌, ◌++◌, append_assoc, Bool, true, false, not, ◌&&◌, ◌==◌,
}
use hasten.Idl.Ast.{QualifiedIdentifier, joined, each_after, to_string}
use hasten.Codegen.Builder.{is_empty, push_part, split_parts, whole_name, split_module_name}

unfoldable pub dotless : String → Bool
dotless String.[] = true
dotless (String.◌∷◌ c s) = not (code c == 0x2E) && dotless s

-- A part of a name has a character, and no dot.
abbrev pub is_part : String → Bool
is_part part = not (is_empty part) && dotless part

split_parts-append :
    (part rest : String) (parts : List String) (current : String)
    → dotless part ≡ true
    → split_parts (String.◌++◌ part rest) parts current
      ≡ split_parts rest parts (String.◌++◌ current part)
unfolding split_parts dotless
split_parts-append String.[] rest parts current h = rw (nil-append rest, text_nil current) refl
split_parts-append (String.◌∷◌ c s) rest parts current h =
    rw (cons-append c s rest, split_parts, false_of_not (code c == 0x2E) (left_of_both _ _ h))
      (split_parts-append s rest parts (String.◌++◌ current (String.◌∷◌ c String.[]))
          (right_of_both _ _ h)
        ∙ ap (split_parts rest parts) (
            text_assoc current (String.◌∷◌ c String.[]) s
            ∙ ap (String.◌++◌ current) (rw (cons-append c String.[] s, nil-append s) refl)))

is_part-dotless : (part : String) → is_part part ≡ true → dotless part ≡ true
is_part-dotless part h = right_of_both (not (is_empty part)) (dotless part) h

is_part-some : (part : String) → is_part part ≡ true → is_empty part ≡ false
is_part-some part h =
    false_of_not (is_empty part) (left_of_both (not (is_empty part)) (dotless part) h)

split_next :
    (part rest : String) (parts : List String)
    → dotless part ≡ true
    → split_parts (String.◌++◌ part rest) parts "" ≡ split_parts rest parts part
split_next part rest parts h =
    split_parts-append part rest parts "" h ∙ ap (split_parts rest parts) (nil-append part)

push_part-some :
    (parts : List String) (part : String)
    → is_empty part ≡ false
    → push_part parts part ≡ parts ++ (part ∷ [])
push_part-some parts part h = rw h refl

-- What follows a part, where the name is put together with dots.
split_parts-each_after :
    (parts done : List String) (current : String)
    → is_empty current ≡ false
    → all is_part parts ≡ true
    → split_parts (each_after "." parts) done current ≡ done ++ (current ∷ parts)
unfolding split_parts each_after all
split_parts-each_after [] done current some_part h = push_part-some done current some_part
split_parts-each_after (part ∷ parts) done current some_part h =
    rw
      (
        cons-append _ "" (String.◌++◌ part (each_after "." parts)),
        nil-append (String.◌++◌ part (each_after "." parts)),
      )
      (ap (λ (d : List String). split_parts (String.◌++◌ part (each_after "." parts)) d "")
          (push_part-some done current some_part)
        ∙ split_next part (each_after "." parts) (done ++ (current ∷ []))
            (is_part-dotless part (left_of_both (is_part part) (all is_part parts) h)))
    ∙ split_parts-each_after parts (done ++ (current ∷ [])) part
        (is_part-some part (left_of_both (is_part part) (all is_part parts) h))
        (right_of_both (is_part part) (all is_part parts) h)
    ∙ append_assoc done (current ∷ []) (part ∷ parts)

split_joined :
    (parts : List String) → all is_part parts ≡ true → split_module_name (joined "." parts) ≡ parts
unfolding split_module_name joined all split_parts
split_joined [] h = refl
split_joined (part ∷ parts) h = ap (whole_name (String.◌++◌ part (each_after "." parts))) (
    split_next part (each_after "." parts) []
      (is_part-dotless part (left_of_both (is_part part) (all is_part parts) h))
    ∙ split_parts-each_after parts [] part
        (is_part-some part (left_of_both (is_part part) (all is_part parts) h))
        (right_of_both (is_part part) (all is_part parts) h))

-- The name of a module, written with dots, is split into its parts again, where each part has a
-- character and no dot.
pub split_module_name-to_string :
    (name : QualifiedIdentifier)
    → all is_part name.parts ≡ true
    → split_module_name (to_string name) ≡ name.parts
unfolding to_string
split_module_name-to_string name h = split_joined name.parts h
