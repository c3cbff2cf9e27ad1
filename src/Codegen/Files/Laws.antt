-- ===== src/Codegen/Files/Laws.antt =====
-- What a write does to the file and to the others.
use Prim.Native.String.{String}
use text.Mathlib.Text.{◌==◌ as ◌is◌}
use text.Mathlib.TextEquality.{eq_iff}
use hasten.Common.{◌≡◌, refl, ap, ◌⊎◌, inl, inr, Bool, true, false, some, if◌then◌else◌}
use hasten.Codegen.Files.{
  Expected, expected, unexpected, Done, done, Files, System, put, quoted, existing, exists,
  write_content, read_first, write_file_if_changed,
}

-- After a success the file either had the content, and nothing was written, or it had not, and has
-- what the system keeps of it, and the other files are as they were. After a failure all are.
pub data Written (system : System) (path content : String) (files : Files)
    : Expected Done × Files → Type 0 where
  kept : existing (files path) ≡ content → Written system path content files (expected done, files)
  replaced :
      (after : Files)
      → ((existing (files path) is content) ≡ false)
      → (system.writable path ≡ true)
      → (after path ≡ some (system.written path content))
      → ((p : String) → (p is path) ≡ false → after p ≡ files p)
      → Written system path content files (expected done, after)
  refused :
      (message : String)
      → (system.writable path ≡ false) ⊎ (system.readable path ≡ false)
      → Written system path content files (unexpected message, files)

module _ (system : System) (path content : String) (files : Files) where
  put_there : (value : String) → put path value files path ≡ some value
  unfolding put
  put_there value = ap (λ b. if b then some value else files path) ((eq_iff path path).1 refl)

  put_elsewhere : (value p : String) → (p is path) ≡ false → put path value files p ≡ files p
  unfolding put
  put_elsewhere value p differ = ap (λ b. if b then some value else files p) differ

  Written-opened :
      (opens : Bool)
      → (existing (files path) is content) ≡ false
      → system.writable path ≡ opens
      → Written system path content files (
          if opens
          then (expected done, put path (system.written path content) files)
          else (unexpected (quoted "Failed to write file" path), files))
  Written-opened true differs e =
      replaced _ differs e (put_there (system.written path content))
        (put_elsewhere (system.written path content))
  Written-opened false differs e = refused _ (inl e)

  Written-compared :
      (same : Bool) (otherwise : Expected Done × Files)
      → (existing (files path) is content) ≡ same
      → ((existing (files path) is content) ≡ false → Written system path content files otherwise)
      → Written system path content files (if same then (expected done, files) else otherwise)
  Written-compared true otherwise e w = kept ((eq_iff (existing (files path)) content).0 e)
  Written-compared false otherwise e w = w e

  Written-write_content :
      Written system path content files (write_content system path content files)
  unfolding write_content
  Written-write_content =
      Written-compared _ _ refl (λ differs. Written-opened (system.writable path) differs refl)

  Written-found :
      (there reads : Bool)
      → system.readable path ≡ reads
      → Written system path content files (
          if there
          then if reads
            then write_content system path content files
            else (unexpected (quoted "Failed to read existing file" path), files)
          else write_content system path content files)
  Written-found true true e = Written-write_content
  Written-found true false e = refused _ (inr e)
  Written-found false reads e = Written-write_content

  -- Writing a content to a file succeeds or fails. After a success, the file, which counts as empty
  -- where there is none, had the content before and nothing is written, or it had another one, and
  -- now it has what the system keeps of the content, and no other file is changed. After a failure,
  -- which takes a file that cannot be opened, no file is changed.
  pub Written-write_file_if_changed :
      Written system path content files (write_file_if_changed system path (expected content) files)
  unfolding write_file_if_changed read_first
  Written-write_file_if_changed = Written-found (exists (files path)) (system.readable path) refl
