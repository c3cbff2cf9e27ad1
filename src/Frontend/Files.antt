-- ===== src/Frontend/Files.antt =====
-- src/frontend/frontend.cpp: how one file is read and parsed. What the system answers, and the
-- parser, are parameters, and so is what a string that is moved leaves behind.
mod Examples
use hasten.Common.{
  String, ℕ, ◌≡◌, refl, ap, ◌∙◌, List, [], ◌∷◌, Bool, true, not, Option, none, some, All,
  if◌then◌else◌, ltb, length, ◌<◌, ltb-true,
}
use hasten.Common.{map, subst}
use hasten.Frontend.{contains, import_path}
use hasten.Idl.Ast.{Module}
use hasten.Frontend.{
  FilePath, Expected, value, unexpected, out_of_fuel, ◌>>=◌, open_failed, read_failed, not_parsed,
  parse_program,
}
use hasten.Frontend.Program.{SourceFile}
use hasten.Frontend.Closure.{Complete, parse_program-Complete}

-- What the system answers for a path: whether there is a regular file, and what the error code says;
-- whether it can be opened; its size, or an error; and its bytes, if as many can be read.
pub record FileSystem : Type 0 where
  pub is_regular_file : FilePath → Bool
  pub says : FilePath → String
  pub opens : FilePath → Bool
  pub file_size : FilePath → Option ℕ
  pub bytes : FilePath → ℕ → Option (List ℕ)

unfoldable pub read_bytes : FileSystem → FilePath → Option ℕ → Expected (List ℕ)
read_bytes system path none = unexpected (read_failed path (system.says path))
read_bytes system path (some size) = elim (system.bytes path size) [
  | none ↦ unexpected (read_failed path (system.says path))
  | some content ↦ value content
]

unfoldable pub read_file : FileSystem → FilePath → Expected (List ℕ)
unfolding read_bytes
read_file system path =
    if not (system.is_regular_file path)
    then unexpected (open_failed path (system.says path))
    else if not (system.opens path)
    then unexpected (open_failed path (system.says path))
    else read_bytes system path (system.file_size path)

-- What the parser gives: the syntax tree, or an error.
pub data Parsed : Type 0 where
  parsed : Module → Parsed
  parse_error : String → Parsed

-- A `std::string` keeps a text in itself up to a size, which is 15 for libstdc++. When it is moved, a
-- longer text stays where it is in memory. A shorter one is copied, and an iterator into it finds
-- whatever is in the memory that it had, which depends on the text and on all that comes later.
pub record StringMemory : Type 0 where
  pub inline_size : ℕ
  pub left_behind : List ℕ → List ℕ

-- What the iterators into a text find when the text is moved.
unfoldable pub after_move : StringMemory → List ℕ → List ℕ
after_move memory content =
    if ltb memory.inline_size (length content) then content else memory.left_behind content

abbrev pub import_paths : SourceFile → List FilePath
import_paths file = map (λ i. i.path) file.syntax.imports

module _ (memory : StringMemory) (system : FileSystem) (parse_file : List ℕ → Parsed) where
  syntax_of : List ℕ → Parsed → Expected SourceFile
  syntax_of content (parse_error message) = unexpected (not_parsed message)
  syntax_of content (parsed tree) = value record {
    path = [];
    content = content;
    position_cache = after_move memory content;
    syntax = tree;
  }

  unfoldable pub parse_file_content : List ℕ → Expected SourceFile
  unfolding syntax_of
  parse_file_content content = syntax_of content (parse_file content)

  -- `set_path`
  abbrev set_path : FilePath → SourceFile → Expected SourceFile
  set_path path file = value (record file { path = path })

  unfoldable pub parse_single_file : FilePath → Expected SourceFile
  unfolding read_file parse_file_content
  parse_single_file path =
      read_file system path >>= λ content. parse_file_content content >>= set_path path

  abbrev pub FromFile : FilePath × SourceFile → Type 0
  FromFile entry =
      (entry.1.path ≡ entry.0)
      × (read_file system entry.0 ≡ value entry.1.content)
      × (parse_file entry.1.content ≡ parsed entry.1.syntax)

  abbrev Faithful : FilePath → Expected SourceFile → Type 0
  Faithful path (value file) =
      FromFile (path, file) × (file.position_cache ≡ after_move memory file.content)
  Faithful path (unexpected e) = Unit {0}
  Faithful path out_of_fuel = Unit {0}

  Faithful-syntax_of :
      (path : FilePath) (content : List ℕ) (answer : Parsed)
      → parse_file content ≡ answer
      → read_file system path ≡ value content
      → Faithful path (syntax_of content answer >>= set_path path)
  unfolding syntax_of
  Faithful-syntax_of path content (parse_error message) p r = tt
  Faithful-syntax_of path content (parsed tree) p r = ((refl, r, p), refl)

  Faithful-content :
      (path : FilePath) (answer : Expected (List ℕ))
      → read_file system path ≡ answer
      → Faithful path (answer >>= λ content. parse_file_content content >>= set_path path)
  unfolding parse_file_content
  Faithful-content path (value content) r = Faithful-syntax_of path content _ refl r
  Faithful-content path (unexpected e) r = tt
  Faithful-content path out_of_fuel r = tt

  Faithful-parse_single_file : (path : FilePath) → Faithful path (parse_single_file path)
  unfolding parse_single_file
  Faithful-parse_single_file path = Faithful-content path _ refl

  -- The position cache of a file still finds the text of the file if the text is longer than what a
  -- string keeps in itself.
  pub position_cache-parse_single_file :
      (path : FilePath) (file : SourceFile)
      → parse_single_file path ≡ value file
      → memory.inline_size < length file.content
      → file.position_cache ≡ file.content
  unfolding after_move
  position_cache-parse_single_file path file e long =
      (subst (Faithful path) e (Faithful-parse_single_file path)).1
      ∙ ap (λ b. if b then file.content else memory.left_behind file.content) (ltb-true _ _ long)

  -- `parse_program`
  unfoldable pub read_program : ℕ → FilePath → Expected (List (FilePath × SourceFile))
  read_program fuel root = parse_program parse_single_file import_paths fuel root

  -- In a program that is read without an error there is the file of the root path; each file has the
  -- path under which it is found, the content that the system gives for the path, and the syntax
  -- tree that the parser makes of the content; and every file that it imports is there.
  pub read_program-FromFile :
      (fuel : ℕ) (root : FilePath) (files : List (FilePath × SourceFile))
      → read_program fuel root ≡ value files
      → (contains root files ≡ true)
        × All
            (λ entry.
              FromFile entry
              × All (λ i. contains (import_path entry.0 i) files ≡ true) (import_paths entry.1))
            files
  unfolding read_program
  read_program-FromFile fuel root files e =
      let (there, complete) =
        parse_program-Complete parse_single_file import_paths fuel root files e in
      (there, from_files files files complete)
    where
      from_files :
          (all some_files : List (FilePath × SourceFile))
          → All (Complete parse_single_file import_paths all) some_files
          → All
              (λ entry.
                FromFile entry
                × All (λ i. contains (import_path entry.0 i) all ≡ true) (import_paths entry.1))
              some_files
      from_files all [] h = tt
      from_files all ((path, file) ∷ more) h = (
        ((subst (Faithful path) h.0.0 (Faithful-parse_single_file path)).0, h.0.1),
        from_files all more h.1,
      )
