-- ===== src/Frontend/Locations/Examples.antt =====
-- The second character of the second line, in a text that is moved and in one that is copied.
use hasten.Common.{ℕ, ◌≡◌, refl, List, [], ◌∷◌, none, some, true}
use hasten.Frontend.{FilePath, value}
use hasten.Frontend.Files.{
  StringMemory, after_move, FileSystem, Parsed, parsed, read_file, parse_file_content,
  parse_single_file,
}
use hasten.Frontend.Program.{SourceFile, scan, locate}
use hasten.Idl.Ast.{Module}

-- "ab\ncd", with what is behind it.
abbrev two_lines : List ℕ → List ℕ
two_lines more = 0x61 ∷ 0x62 ∷ 0x0A ∷ 0x63 ∷ 0x64 ∷ more

abbrev long_text : List ℕ
long_text =
    two_lines
      (0x65 ∷ 0x65 ∷ 0x65 ∷ 0x65 ∷ 0x65 ∷ 0x65 ∷ 0x65 ∷ 0x65 ∷ 0x65 ∷ 0x65 ∷ 0x65 ∷ 0x65 ∷ [])

abbrev tree : Module
tree = record { name = record { parts = "m" ∷ [] }; imports = []; decls = []; position = none }

abbrev parser : List ℕ → Parsed
parser content = parsed tree

abbrev disk : List ℕ → FileSystem
disk content = record {
  is_regular_file = λ path. true;
  says = λ path. "Success";
  opens = λ path. true;
  file_size = λ path. some 17;
  bytes = λ path size. some content;
}

-- What was the text is filled with the letter 'x'.
abbrev memory : StringMemory
memory = record { inline_size = 15; left_behind = λ content. 0x78 ∷ 0x78 ∷ 0x78 ∷ 0x78 ∷ 0x78 ∷ [] }

abbrev root : FilePath
root = 0x61 ∷ []

abbrev long_file : SourceFile
long_file = record { path = root; content = long_text; position_cache = long_text; syntax = tree }

second_character : locate (some 4) long_file ≡ record { file = root; line = 2; column = 2 }
unfolding locate scan
second_character = refl

abbrev short_file : SourceFile
short_file = record {
  path = root;
  content = two_lines [];
  position_cache = 0x78 ∷ 0x78 ∷ 0x78 ∷ 0x78 ∷ 0x78 ∷ [];
  syntax = tree;
}

short_read : parse_single_file memory (disk (two_lines [])) parser root ≡ value short_file
unfolding parse_single_file read_file parse_file_content after_move
short_read = refl

-- In a short text the place is a wrong one.
wrong_place : locate (some 4) short_file ≡ record { file = root; line = 1; column = 5 }
unfolding locate scan
wrong_place = refl
