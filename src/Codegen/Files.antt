-- ===== src/Codegen/Files.antt =====
-- src/codegen/file_writer.cpp: a file is written unless it has the content already. The files of the
-- system are what is read of each of them, and what the system answers to the calls is a parameter.
pub mod Laws
mod Examples
use Prim.Native.String as String
use Prim.Native.String.{String}
use text.Mathlib.Text.{◌==◌ as ◌is◌}
use hasten.Common.{Bool, true, false, Option, none, some, if◌then◌else◌}

pub data Expected {ℓ} (A : Type ℓ) : Type ℓ where
  expected : A → Expected A
  unexpected : String → Expected A

-- `std::expected<void, std::string>`
pub data Done : Type 0 where
  done : Done

-- The files that exist, by their paths.
abbrev pub Files : Type 0
Files = String → Option String

-- What the system answers: whether a file can be opened to be read, or to be written, what a file
-- has after a text is written to it, whether a directory is there after the call that creates it,
-- the current directory, and the absolute form of a path.
pub record System : Type 0 where
  pub readable : String → Bool
  pub writable : String → Bool
  pub written : String → String → String
  pub created : String → Expected Done
  pub current_path : String
  pub absolute : String → String

-- What changes the files and may fail.
abbrev pub OverFiles {ℓ} : Type ℓ → Type ℓ
OverFiles A = Files → Expected A × Files

unfoldable pub put : String → String → Files → Files
put path content files p = if p is path then some content else files p

abbrev pub quoted : String → String → String
quoted words path = String.◌++◌ words (String.◌++◌ " '" (String.◌++◌ path "'"))

-- The content of the file, which is empty where there is none.
abbrev pub existing : Option String → String
existing none = ""
existing (some content) = content

abbrev pub exists : Option String → Bool
exists none = false
exists (some content) = true

unfoldable pub write_content : System → String → String → OverFiles Done
unfolding put
write_content system path content files =
    if existing (files path) is content
    then (expected done, files)
    else if system.writable path
    then (expected done, put path (system.written path content) files)
    else (unexpected (quoted "Failed to write file" path), files)

unfoldable pub read_first : System → String → String → OverFiles Done
unfolding write_content
read_first system path content files =
    if exists (files path)
    then if system.readable path
      then write_content system path content files
      else (unexpected (quoted "Failed to read existing file" path), files)
    else write_content system path content files

unfoldable pub write_file_if_changed : System → String → Expected String → OverFiles Done
unfolding read_first
write_file_if_changed system path (unexpected message) files = (unexpected message, files)
write_file_if_changed system path (expected content) files = read_first system path content files
