-- ===== src/Frontend.antt =====
-- src/frontend/frontend.cpp: how a program is read, file by file along its imports. Reading one file
-- and parsing it is a parameter: it asks the system, and the parser's combinators are a library.
pub mod Closure
pub mod Termination
pub mod Program
mod Locations
pub mod Files
pub mod Ids
pub mod Semantic
mod Examples
use hasten.Common.{
  String, ℕ, zero, suc, List, [], ◌∷◌, ◌++◌, Bool, true, false, ◌&&◌, ◌||◌, ◌==◌, if◌then◌else◌,
}

-- A path, as its bytes.
abbrev pub FilePath : Type 0
FilePath = List ℕ

abbrev slash : ℕ
slash = 0x2F

unfoldable pub same_path : FilePath → FilePath → Bool
same_path [] [] = true
same_path [] (c ∷ q) = false
same_path (b ∷ p) [] = false
same_path (b ∷ p) (c ∷ q) = (b == c) && same_path p q

has_slash : FilePath → Bool
has_slash [] = false
has_slash (b ∷ p) = b == slash || has_slash p

-- `remove_filename`: what stands before the last slash, and the slash.
remove_filename : FilePath → FilePath
unfolding has_slash
remove_filename [] = []
remove_filename (b ∷ p) =
    let rest = remove_filename p in
    if has_slash p then b ∷ rest else if b == slash then b ∷ [] else []

is_absolute : FilePath → Bool
is_absolute [] = false
is_absolute (b ∷ p) = b == slash

-- `(root_path / import.path).string()`, where `root_path` is the directory of the importing file.
unfoldable pub import_path : FilePath → FilePath → FilePath
unfolding remove_filename is_absolute
import_path path relative =
    if is_absolute relative then relative else remove_filename path ++ relative

-- The messages: "Duplicate import: " and the path, "Failed to open file: " or "Failed to read file: "
-- with the path and what the system says, or what the parser gave.
pub data Failure : Type 0 where
  duplicate_import : FilePath → Failure
  open_failed read_failed : FilePath → String → Failure
  not_parsed : String → Failure

-- `std::expected` with a message, or the end of the fuel.
pub data Expected (A : Type 0) : Type 0 where
  value : A → Expected A
  unexpected : Failure → Expected A
  out_of_fuel : Expected A

infixl 5 ◌>>=◌
abbrev pub ◌>>=◌ : {A B : Type 0} → Expected A → (A → Expected B) → Expected B
value a >>= f = f a
unexpected e >>= f = unexpected e
out_of_fuel >>= f = out_of_fuel

module _ {SourceFile : Type 0} where
  -- The map of files by path, in the order in which they were added.
  unfoldable pub contains : FilePath → List (FilePath × SourceFile) → Bool
  contains path [] = false
  contains path ((p, file) ∷ files) = same_path p path || contains path files

  -- The loop over the imports of the file at `path`, with the function for one import.
  import_all :
      (FilePath → List (FilePath × SourceFile) → Expected (List (FilePath × SourceFile)))
      → FilePath
      → List FilePath
      → List (FilePath × SourceFile)
      → Expected (List (FilePath × SourceFile))
  import_all parse path [] files = value files
  import_all parse path (relative ∷ imports) files =
      let skipped = import_all parse path imports files in
      let parsed =
        parse (import_path path relative) files >>= λ more. import_all parse path imports more in
      if contains (import_path path relative) files then skipped else parsed

  module _ (parse_single_file : FilePath → Expected SourceFile)
      (imports_of : SourceFile → List FilePath) where
    -- `parse_imports`, as deep as the fuel lets it go.
    unfoldable pub parse_imports :
        ℕ → FilePath → List (FilePath × SourceFile) → Expected (List (FilePath × SourceFile))
    unfolding import_all
    parse_imports zero path files = out_of_fuel
    parse_imports (suc fuel) path files = parse_single_file path >>= λ file.
        if contains path files
        then unexpected (duplicate_import path)
        else import_all (parse_imports fuel) path (imports_of file) (files ++ ((path, file) ∷ []))

    unfoldable pub parse_program : ℕ → FilePath → Expected (List (FilePath × SourceFile))
    parse_program fuel root_path = parse_imports fuel root_path []
