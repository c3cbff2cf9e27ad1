-- ===== src/Frontend/Closure.antt =====
-- The program that is read has every file that a file of it imports.
use hasten.Common.{
  ℕ, zero, suc, ◌≡◌, refl, sym, subst, ◌∙◌, List, [], ◌∷◌, ◌++◌, append_assoc, append-nil, true,
  Bool-cases, inl, inr, ==_refl, if◌then◌else◌, All, All-append,
}
use hasten.Frontend.{
  FilePath, same_path, import_path, Expected, value, unexpected, out_of_fuel, ◌>>=◌,
  duplicate_import, contains, import_all, parse_imports, parse_program,
}

same_path_refl : (p : FilePath) → same_path p p ≡ true
unfolding same_path
same_path_refl [] = refl
same_path_refl (b ∷ p) = rw (==_refl b, same_path_refl p) refl

module _ {SourceFile : Type 0} where
  pub contains-append :
      (path : FilePath) (files more : List (FilePath × SourceFile))
      → contains path files ≡ true
      → contains path (files ++ more) ≡ true
  unfolding contains
  contains-append path [] more h = cc
  contains-append path ((p, file) ∷ files) more h = elim (Bool-cases (same_path p path)) [
    | inl same ↦ rw same refl
    | inr other ↦ rw other (contains-append path files more (rw other at h))
  ]

  pub contains-last :
      (path : FilePath) (file : SourceFile) (files : List (FilePath × SourceFile))
      → contains path (files ++ ((path, file) ∷ [])) ≡ true
  unfolding contains
  contains-last path file [] = rw (same_path_refl path) refl
  contains-last path file ((p, f) ∷ files) = elim (Bool-cases (same_path p path)) [
    | inl same ↦ rw same refl
    | inr other ↦ rw other (contains-last path file files)
  ]

  module _ (parse_single_file : FilePath → Expected SourceFile)
      (imports_of : SourceFile → List FilePath) where
    -- The file is what its path gives, and the files that it imports are there.
    abbrev pub Complete : List (FilePath × SourceFile) → FilePath × SourceFile → Type 0
    Complete files entry =
        (parse_single_file entry.0 ≡ value entry.1)
        × All (λ i. contains (import_path entry.0 i) files ≡ true) (imports_of entry.1)

    -- Files were added, and those are complete.
    pub record Grown (before after : List (FilePath × SourceFile)) : Type 0 where
      pub added : List (FilePath × SourceFile)
      pub together : after ≡ before ++ added
      pub complete : All (Complete after) added

    abbrev pub Grows :
        List (FilePath × SourceFile) → FilePath → Expected (List (FilePath × SourceFile)) → Type 0
    Grows files path (value after) = Grown files after × (contains path after ≡ true)
    Grows files path (unexpected e) = Unit {0}
    Grows files path out_of_fuel = Unit {0}

    imports_contained :
        (path : FilePath) (imports : List FilePath) (files more : List (FilePath × SourceFile))
        → All (λ i. contains (import_path path i) files ≡ true) imports
        → All (λ i. contains (import_path path i) (files ++ more) ≡ true) imports
    imports_contained path [] files more h = tt
    imports_contained path (i ∷ imports) files more h = (
      contains-append (import_path path i) files more h.0,
      imports_contained path imports files more h.1,
    )

    later_entries :
        (entries files more : List (FilePath × SourceFile))
        → All (Complete files) entries
        → All (Complete (files ++ more)) entries
    later_entries [] files more h = tt
    later_entries ((p, f) ∷ entries) files more h = (
      (h.0.0, imports_contained p (imports_of f) files more h.0.1),
      later_entries entries files more h.1,
    )

    Grown-trans : (a b c : List (FilePath × SourceFile)) → Grown a b → Grown b c → Grown a c
    Grown-trans a b c g h = record {
      added = g.added ++ h.added;
      together = h.together ∙ rw g.together (append_assoc a g.added h.added);
      complete =
          All-append (Complete c) g.added h.added
            (subst (λ files. All (Complete files) g.added) (sym h.together)
              (later_entries g.added b h.added g.complete))
            h.complete;
    }

    -- What the loop gives: the imports are all there.
    abbrev GrowsAll :
        List (FilePath × SourceFile)
        → FilePath
        → List FilePath
        → Expected (List (FilePath × SourceFile))
        → Type 0
    GrowsAll files path imports (value after) =
        Grown files after × All (λ i. contains (import_path path i) after ≡ true) imports
    GrowsAll files path imports (unexpected e) = Unit {0}
    GrowsAll files path imports out_of_fuel = Unit {0}

    pub contains-Grown :
        (p : FilePath) (before after : List (FilePath × SourceFile))
        → Grown before after
        → contains p before ≡ true
        → contains p after ≡ true
    contains-Grown p before after g h =
        subst (λ files. contains p files ≡ true) (sym g.together)
          (contains-append p before g.added h)

    -- After one import is there, the loop gives the others.
    after_import :
        (files more : List (FilePath × SourceFile)) (path i : FilePath) (imports : List FilePath)
        (r : Expected (List (FilePath × SourceFile)))
        → Grown files more
        → contains (import_path path i) more ≡ true
        → GrowsAll more path imports r
        → GrowsAll files path (i ∷ imports) r
    after_import files more path i imports (value after) g h (rest, all) = (
      Grown-trans files more after g rest,
      (contains-Grown (import_path path i) more after rest h, all),
    )
    after_import files more path i imports (unexpected e) g h all = tt
    after_import files more path i imports out_of_fuel g h all = tt

    then_imports :
        (files : List (FilePath × SourceFile)) (path i : FilePath) (imports : List FilePath)
        (r : Expected (List (FilePath × SourceFile)))
        (k : List (FilePath × SourceFile) → Expected (List (FilePath × SourceFile)))
        → Grows files (import_path path i) r
        → ((more : List (FilePath × SourceFile)) → GrowsAll more path imports (k more))
        → GrowsAll files path (i ∷ imports) (r >>= k)
    then_imports files path i imports (value more) k g all =
        after_import files more path i imports (k more) g.0 g.1 (all more)
    then_imports files path i imports (unexpected e) k g all = tt
    then_imports files path i imports out_of_fuel k g all = tt

    unchanged : (files : List (FilePath × SourceFile)) → Grown files files
    unchanged files = record { added = []; together = sym (append-nil files); complete = tt }

    import_all-GrowsAll :
        (parse : FilePath → List (FilePath × SourceFile) → Expected (List (FilePath × SourceFile)))
        → ((p : FilePath) (files : List (FilePath × SourceFile)) → Grows files p (parse p files))
        → (path : FilePath) (imports : List FilePath) (files : List (FilePath × SourceFile))
        → GrowsAll files path imports (import_all parse path imports files)
    unfolding import_all
    import_all-GrowsAll parse h path [] files = (unchanged files, tt)
    import_all-GrowsAll parse h path (i ∷ imports) files =
        elim (Bool-cases (contains (import_path path i) files)) [
          | inl there ↦
              rw (there, import_all)
                (after_import files files path i imports _ (unchanged files) there
                  (import_all-GrowsAll parse h path imports files))
          | inr missing ↦
              rw (missing, import_all)
                (then_imports files path i imports (parse (import_path path i) files) _
                  (h (import_path path i) files) (import_all-GrowsAll parse h path imports))
        ]

    -- The file itself comes in front of what its imports bring.
    with_imports :
        (files : List (FilePath × SourceFile)) (path : FilePath) (file : SourceFile)
        (r : Expected (List (FilePath × SourceFile)))
        → parse_single_file path ≡ value file
        → GrowsAll (files ++ ((path, file) ∷ [])) path (imports_of file) r
        → Grows files path r
    with_imports files path file (value after) e (g, all) = (
      record {
        added = (path, file) ∷ g.added;
        together = g.together ∙ append_assoc files ((path, file) ∷ []) g.added;
        complete = ((e, all), g.complete);
      },
      contains-Grown path (files ++ ((path, file) ∷ [])) after g (contains-last path file files),
    )
    with_imports files path file (unexpected x) e all = tt
    with_imports files path file out_of_fuel e all = tt

    with_file :
        (fuel : ℕ) (path : FilePath) (files : List (FilePath × SourceFile))
        (r : Expected SourceFile)
        → ((p : FilePath) (fs : List (FilePath × SourceFile))
            → Grows fs p (parse_imports parse_single_file imports_of fuel p fs))
        → parse_single_file path ≡ r
        → Grows files path (
            r >>= λ file.
            if contains path files
            then unexpected (duplicate_import path)
            else import_all
                (parse_imports parse_single_file imports_of fuel)
                path
                (imports_of file)
                (files ++ ((path, file) ∷ [])))
    with_file fuel path files (value file) h e = elim (Bool-cases (contains path files)) [
      | inl there ↦ rw there tt
      | inr missing ↦ rw missing (
          with_imports files path file _ e (
            import_all-GrowsAll (parse_imports parse_single_file imports_of fuel) h path
              (imports_of file) (files ++ ((path, file) ∷ []))))
    ]
    with_file fuel path files (unexpected x) h e = tt
    with_file fuel path files out_of_fuel h e = tt

    pub parse_imports-Grows :
        (fuel : ℕ) (path : FilePath) (files : List (FilePath × SourceFile))
        → Grows files path (parse_imports parse_single_file imports_of fuel path files)
    unfolding parse_imports
    parse_imports-Grows zero path files = tt
    parse_imports-Grows (suc fuel) path files =
        with_file fuel path files (parse_single_file path) (parse_imports-Grows fuel) refl

    -- A program that is read without an error has the root file; each of its files is what its path
    -- gives; and every file that one of them imports is there, at the path taken from the directory
    -- of the importing file.
    pub parse_program-Complete :
        (fuel : ℕ) (root : FilePath) (files : List (FilePath × SourceFile))
        → parse_program parse_single_file imports_of fuel root ≡ value files
        → (contains root files ≡ true) × All (Complete files) files
    unfolding parse_program
    parse_program-Complete fuel root files e =
        let (g, there) = subst (Grows [] root) e (parse_imports-Grows fuel root []) in
        (there, subst (All (Complete files)) (sym g.together) g.complete)
