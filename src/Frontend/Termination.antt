-- ===== src/Frontend/Termination.antt =====
-- The imports are read with bounded depth.
use hasten.Common.{
  ℕ, zero, suc, ◌+◌, ◌≤◌, ◌≡◌, refl, List, [], ◌∷◌, ◌++◌, length, true, false, Bool-cases, inl, inr,
  if◌then◌else◌, All, arith,
}
use hasten.Frontend.{
  FilePath, import_path, Expected, value, unexpected, out_of_fuel, ◌>>=◌, duplicate_import,
  contains, import_all, parse_imports, parse_program,
}
use hasten.Frontend.Closure.{
  Grown, Grows, contains-Grown, contains-append, contains-last, parse_imports-Grows,
}

pub data In {A : Type 0} (a : A) : List A → Type 0 where
  here : {rest : List A} → In a (a ∷ rest)
  there : {b : A} {rest : List A} → In a rest → In a (b ∷ rest)

-- The fuel was enough.
abbrev pub Ends : {A : Type 0} → Expected A → Type 0
Ends (value a) = Unit {0}
Ends (unexpected e) = Unit {0}
Ends out_of_fuel = ⊥

module _ {SourceFile : Type 0} where
  -- How many of the paths have no file yet.
  missing : List FilePath → List (FilePath × SourceFile) → ℕ
  missing [] files = 0
  missing (u ∷ paths) files = (if contains u files then 0 else 1) + missing paths files

  missing_step :
      (u : FilePath) (files more : List (FilePath × SourceFile))
      → ((p : FilePath) → contains p files ≡ true → contains p more ≡ true)
      → (if contains u more then 0 else 1) ≤ (if contains u files then 0 else 1)
  missing_step u files more keeps = ground (arith, keeps u)

  missing_mono :
      (paths : List FilePath) (files more : List (FilePath × SourceFile))
      → ((p : FilePath) → contains p files ≡ true → contains p more ≡ true)
      → missing paths more ≤ missing paths files
  unfolding missing
  missing_mono [] files more keeps = omega arith
  missing_mono (u ∷ paths) files more keeps =
      omega (arith, missing_step u files more keeps, missing_mono paths files more keeps)

  missing_strict :
      {path : FilePath} {paths : List FilePath} (files more : List (FilePath × SourceFile))
      → In path paths
      → contains path files ≡ false
      → contains path more ≡ true
      → ((p : FilePath) → contains p files ≡ true → contains p more ≡ true)
      → suc (missing paths more) ≤ missing paths files
  unfolding missing
  missing_strict {paths = []} files more i absent present keeps = elim i [ ]
  missing_strict {paths = u ∷ paths} files more here absent present keeps =
      rw (absent, present) (omega (arith, missing_mono paths files more keeps))
  missing_strict {paths = u ∷ paths} files more (there i) absent present keeps =
      omega
        (arith, missing_step u files more keeps, missing_strict files more i absent present keeps)

  missing-length :
      (paths : List FilePath) (files : List (FilePath × SourceFile))
      → missing paths files ≤ length paths
  unfolding missing
  missing-length [] files = omega arith
  missing-length (u ∷ paths) files =
      let small : (if contains u files then 0 else 1) ≤ 1 = ground arith in
      omega (arith, small, missing-length paths files)

-- Some path has no file yet.
missing-some :
    {SourceFile : Type 0} {path : FilePath} (paths : List FilePath)
    (files : List (FilePath × SourceFile))
    → In path paths
    → contains path files ≡ false
    → 1 ≤ missing paths files
unfolding missing
missing-some [] files i absent = elim i [ ]
missing-some (u ∷ paths) files here absent = rw absent (omega arith)
missing-some (u ∷ paths) files (there i) absent = omega (arith, missing-some paths files i absent)

All-In : {A : Type 0} (P : A → Type 0) {a : A} (list : List A) → All P list → In a list → P a
All-In P [] all i = elim i [ ]
All-In P (b ∷ list) all here = all.0
All-In P (b ∷ list) all (there i) = All-In P list all.1 i

module _ {SourceFile : Type 0} (parse_single_file : FilePath → Expected SourceFile)
    (imports_of : SourceFile → List FilePath) where
  -- The paths hold whatever their files import.
  pub record Universe (paths : List FilePath) : Type 0 where
    pub reads : All (λ p. Ends (parse_single_file p)) paths
    pub closed :
        (p : FilePath) (file : SourceFile)
        → In p paths
        → parse_single_file p ≡ value file
        → All (λ i. In (import_path p i) paths) (imports_of file)

  after_one :
      (files : List (FilePath × SourceFile)) (p : FilePath)
      (r : Expected (List (FilePath × SourceFile)))
      (k : List (FilePath × SourceFile) → Expected (List (FilePath × SourceFile)))
      → Ends r
      → Grows parse_single_file imports_of files p r
      → ((more : List (FilePath × SourceFile))
          → Grown parse_single_file imports_of files more
          → Ends (k more))
      → Ends (r >>= k)
  after_one files p (value more) k e g rest = rest more g.0
  after_one files p (unexpected x) k e g rest = tt
  after_one files p out_of_fuel k e g rest = absurd e

  import_all-Ends :
      (fuel : ℕ) (paths : List FilePath) (path : FilePath) (imports : List FilePath)
      (files : List (FilePath × SourceFile))
      → ((p : FilePath) (fs : List (FilePath × SourceFile))
          → In p paths
          → contains p fs ≡ false
          → missing paths fs ≤ fuel
          → Ends (parse_imports parse_single_file imports_of fuel p fs))
      → All (λ i. In (import_path path i) paths) imports
      → missing paths files ≤ fuel
      → Ends (import_all (parse_imports parse_single_file imports_of fuel) path imports files)
  unfolding import_all
  import_all-Ends fuel paths path [] files ends known few = tt
  import_all-Ends fuel paths path (i ∷ imports) files ends known few =
      elim (Bool-cases (contains (import_path path i) files)) [
        | inl present ↦
            rw (present, import_all)
              (import_all-Ends fuel paths path imports files ends known.1 few)
        | inr absent ↦
            rw (absent, import_all)
              (after_one files (import_path path i)
                (parse_imports parse_single_file imports_of fuel (import_path path i) files) _
                (ends (import_path path i) files known.0 absent few)
                (parse_imports-Grows parse_single_file imports_of fuel (import_path path i) files)
                λ more g. import_all-Ends fuel paths path imports more ends known.1 (
                  omega (
                    arith,
                    few,
                    missing_mono paths files more
                        λ p. contains-Grown parse_single_file imports_of p files more g,
                  )))
      ]

  one_file :
      (fuel : ℕ) (paths : List FilePath) (path : FilePath) (files : List (FilePath × SourceFile))
      (r : Expected SourceFile)
      → Universe paths
      → ((p : FilePath) (fs : List (FilePath × SourceFile))
          → In p paths
          → contains p fs ≡ false
          → missing paths fs ≤ fuel
          → Ends (parse_imports parse_single_file imports_of fuel p fs))
      → In path paths
      → contains path files ≡ false
      → missing paths files ≤ suc fuel
      → Ends r
      → parse_single_file path ≡ r
      → Ends (
          r >>= λ file.
          if contains path files
          then unexpected (duplicate_import path)
          else import_all
              (parse_imports parse_single_file imports_of fuel)
              path
              (imports_of file)
              (files ++ ((path, file) ∷ [])))
  one_file fuel paths path files (value file) u ends i absent few e same =
      let more = files ++ ((path, file) ∷ []) in
      let fewer : suc (missing paths more) ≤ missing paths files =
        missing_strict files more i absent (contains-last path file files)
          λ p h. contains-append p files ((path, file) ∷ []) h in
      rw absent (
        import_all-Ends fuel paths path (imports_of file) more ends (u.closed path file i same)
          (omega (arith, few, fewer)))
  one_file fuel paths path files (unexpected x) u ends i absent few e same = tt
  one_file fuel paths path files out_of_fuel u ends i absent few e same = absurd e

  parse_imports-Ends :
      (fuel : ℕ) (paths : List FilePath) (path : FilePath) (files : List (FilePath × SourceFile))
      → Universe paths
      → In path paths
      → contains path files ≡ false
      → missing paths files ≤ fuel
      → Ends (parse_imports parse_single_file imports_of fuel path files)
  unfolding parse_imports
  parse_imports-Ends zero paths path files u i absent few =
      absurd (omega (arith, few, missing-some paths files i absent))
  parse_imports-Ends (suc fuel) paths path files u i absent few =
      one_file fuel paths path files (parse_single_file path) u
        (λ p fs j a f. parse_imports-Ends fuel paths p fs u j a f) i absent few
        (All-In (λ p. Ends (parse_single_file p)) paths u.reads i) refl

  -- Where the paths of a program are in a finite list with all that their files import, and each
  -- file of the list is read or refused, a depth of imports of the length of the list is enough:
  -- reading the program ends with the files or with a message.
  pub parse_program-Ends :
      (fuel : ℕ) (paths : List FilePath) (root : FilePath)
      → Universe paths
      → In root paths
      → length paths ≤ fuel
      → Ends (parse_program parse_single_file imports_of fuel root)
  unfolding parse_program contains
  parse_program-Ends fuel paths root u i enough =
      parse_imports-Ends fuel paths root [] u i refl
        (omega (arith, enough, missing-length {SourceFile = SourceFile} paths []))
