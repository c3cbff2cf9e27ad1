-- ===== src/Codegen/Files/Examples.antt =====
-- A file with an old content, in a system that lets everything be done.
use text.Mathlib.Text.{◌==◌ as ◌is◌}
use hasten.Common.{◌≡◌, refl, true, none, some, if◌then◌else◌}
use hasten.Codegen.Files.{
  expected, done, Files, System, put, write_content, read_first, write_file_if_changed,
}
use hasten.Codegen.Files.Laws.{Written, Written-write_file_if_changed}

abbrev permissive : System
permissive = record {
  readable = λ path. true;
  writable = λ path. true;
  written = λ path content. content;
  created = λ path. expected done;
  current_path = "/here";
  absolute = λ path. path;
}

abbrev old_file : Files
old_file path = if path is "a.hpp" then some "old" else none

replaced_by_new :
    (write_file_if_changed permissive "a.hpp" (expected "new") old_file).1 "a.hpp" ≡ some "new"
unfolding write_file_if_changed read_first write_content put
replaced_by_new = refl

Written-write_file_if_changed_example :
    Written permissive "a.hpp" "new" old_file
      (write_file_if_changed permissive "a.hpp" (expected "new") old_file)
Written-write_file_if_changed_example =
    Written-write_file_if_changed permissive "a.hpp" "new" old_file
