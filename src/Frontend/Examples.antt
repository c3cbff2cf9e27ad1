-- ===== src/Frontend/Examples.antt =====
-- Two files that import each other, and a file that imports itself by another name.
use hasten.Common.{◌≡◌, refl, subst, List, [], ◌∷◌, true, if◌then◌else◌, All, arith}
use hasten.Frontend.{
  FilePath, same_path, import_path, Expected, value, unexpected, out_of_fuel, not_parsed, contains,
  parse_imports, parse_program,
}
use hasten.Frontend.Closure.{Complete, parse_program-Complete}
use hasten.Frontend.Termination.{In, here, there, Ends, Universe, parse_program-Ends}

abbrev path_a : FilePath
path_a = 0x64 ∷ 0x2F ∷ 0x61 ∷ []

abbrev path_b : FilePath
path_b = 0x64 ∷ 0x2F ∷ 0x62 ∷ []

-- A file is the list of its imports. The file d/a imports b, the file d/b imports a, and no other
-- file is there.
abbrev read_pair : FilePath → Expected (List FilePath)
read_pair p =
    if same_path p path_a
    then value ((0x62 ∷ []) ∷ [])
    else if same_path p path_b
    then value ((0x61 ∷ []) ∷ [])
    else unexpected (not_parsed "Failed to open file")

abbrev imports_of : List FilePath → List FilePath
imports_of imports = imports

abbrev pair : List (FilePath × List FilePath)
pair = (path_a, (0x62 ∷ []) ∷ []) ∷ (path_b, (0x61 ∷ []) ∷ []) ∷ []

pair_read : parse_program read_pair imports_of 2 path_a ≡ value pair
unfolding parse_program parse_imports contains same_path import_path
pair_read = refl

pair_whole : (contains path_a pair ≡ true) × All (Complete read_pair imports_of pair) pair
pair_whole = parse_program-Complete read_pair imports_of 2 path_a pair pair_read

same_value : {A : Type 0} (x y : A) → value x ≡ value y → x ≡ y
same_value x y e = cc

pair_closed :
    (p : FilePath) (file : List FilePath)
    → In p (path_a ∷ path_b ∷ [])
    → read_pair p ≡ value file
    → All (λ i. In (import_path p i) (path_a ∷ path_b ∷ [])) file
unfolding same_path import_path
pair_closed p file here e =
    subst (All (λ i. In (import_path path_a i) (path_a ∷ path_b ∷ []))) (same_value _ file e)
      (there here, tt)
pair_closed p file (there here) e =
    subst (All (λ i. In (import_path path_b i) (path_a ∷ path_b ∷ []))) (same_value _ file e)
      (here, tt)
pair_closed p file (there (there i)) e = elim i [ ]

pair_Universe : Universe read_pair imports_of (path_a ∷ path_b ∷ [])
unfolding same_path
pair_Universe = record { reads = (tt, (tt, tt)); closed = pair_closed }

parse_program-Ends_example : Ends (parse_program read_pair imports_of 2 path_a)
parse_program-Ends_example =
    parse_program-Ends read_pair imports_of 2 (path_a ∷ path_b ∷ []) path_a pair_Universe here
      (omega arith)

-- Every path is a file that imports ./x, as when the system resolves the dots.
abbrev read_self : FilePath → Expected (List FilePath)
read_self p = value ((0x2E ∷ 0x2F ∷ 0x78 ∷ []) ∷ [])

self_import : parse_program read_self imports_of 9 (0x78 ∷ []) ≡ out_of_fuel
unfolding parse_program parse_imports contains same_path import_path
self_import = refl
