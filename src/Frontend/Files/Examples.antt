-- ===== src/Frontend/Files/Examples.antt =====
-- One file, which imports nothing.
use hasten.Common.{ℕ, ◌≡◌, refl, List, [], ◌∷◌, true, some, All}
use hasten.Common.{none}
use hasten.Idl.Ast.{Module}
use hasten.Frontend.{FilePath, value, contains, import_path, parse_program, parse_imports}
use hasten.Frontend.Program.{SourceFile}
use hasten.Frontend.Files.{
  StringMemory, after_move, FileSystem, Parsed, parsed, read_file, parse_file_content,
  parse_single_file, FromFile, import_paths, read_program, read_program-FromFile,
}

abbrev tree : Module
tree = record { name = record { parts = "m" ∷ [] }; imports = []; decls = []; position = none }

abbrev disk : FileSystem
disk = record {
  is_regular_file = λ path. true;
  says = λ path. "Success";
  opens = λ path. true;
  file_size = λ path. some 2;
  bytes = λ path size. some (0x6D ∷ 0x3B ∷ []);
}

abbrev parser : List ℕ → Parsed
parser content = parsed tree

-- The text is short, and of the iterators into it nothing is left.
abbrev memory : StringMemory
memory = record { inline_size = 15; left_behind = λ content. [] }

abbrev root : FilePath
root = 0x61 ∷ []

abbrev files : List (FilePath × SourceFile)
files =
    (root, record { path = root; content = 0x6D ∷ 0x3B ∷ []; position_cache = []; syntax = tree })
    ∷ []

one_read : read_program memory disk parser 1 root ≡ value files
unfolding read_program parse_program parse_imports contains parse_single_file read_file
    parse_file_content after_move
one_read = refl

read_program-FromFile_example :
    (contains root files ≡ true)
    × All
        (λ entry.
          FromFile memory disk parser entry
          × All (λ i. contains (import_path entry.0 i) files ≡ true) (import_paths entry.1))
        files
read_program-FromFile_example = read_program-FromFile memory disk parser 1 root files one_read
