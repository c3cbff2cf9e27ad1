-- ===== src/Frontend/Semantic/Run.antt =====
-- What the run of the default passes says of a program.
use hasten.Common.Bools.{all}
use hasten.Common.{
  String, ◌≡◌, refl, ◌∙◌, ap, List, [], ◌∷◌, map, Bool, true, false, not, ◌&&◌, ◌||◌,
}
use hasten.Idl.Ast.{Declaration}
use hasten.Frontend.Program.{SourceFile, Program, Diagnostic, has_errors}
use hasten.Frontend.Semantic.{DeclInfo, Context, find}
use hasten.Frontend.Semantic.Passes.{
  each, module_name_of, module_index_pass, declaration_index_pass, enum_validation_pass,
  struct_validation_pass, interface_validation_pass, each_declaration, validate_enum,
  validate_struct, validate_interface,
}
use hasten.Frontend.Semantic.Validator.{
  add_pass_factory, register_default_passes, validator, instantiate_passes, run_pass, run,
}
use hasten.Frontend.Semantic.Reports.{Reports, Reports-then, Reports-each, Reports-cong}
use hasten.Frontend.Semantic.Names.{distinct}
use hasten.Frontend.Semantic.Checks.{
  valid_enum, valid_struct, valid_interface, Reports-enum, Reports-struct, Reports-interface,
}
use hasten.Frontend.Semantic.Agree.{all-cong, valid_struct-agree, valid_interface-agree}
use hasten.Frontend.Semantic.Verdict.{
  entry_key, entries, declared, valid_declaration, valid_program, has_errors-module_index_pass,
  has_errors-declaration_index_pass, find-declaration_index_pass,
}

abbrev all_declarations : (SourceFile → Declaration → Bool) → List SourceFile → Bool
all_declarations good files = all (λ file. all (good file) file.syntax.decls) files

Reports-all_declarations :
    (check : SourceFile → Declaration → List Diagnostic → List Diagnostic)
    (good : SourceFile → Declaration → Bool)
    → ((file : SourceFile) (d : Declaration) → Reports (check file d) (good file d))
    → (files : List SourceFile)
    → Reports (each_declaration check files) (all_declarations good files)
Reports-all_declarations check good reports files =
    Reports-each (λ file. each (check file) file.syntax.decls)
      (λ file. all (good file) file.syntax.decls)
      (λ file. Reports-each (check file) (good file) (reports file) file.syntax.decls) files

all-and :
    {A : Type 0} (f g : A → Bool) (xs : List A) → (all f xs && all g xs) ≡ all (λ x. f x && g x) xs
unfolding all
all-and f g [] = refl
all-and f g (x ∷ xs) =
    and_swap (f x) (g x) (all f xs) (all g xs)
    ∙ ap (λ (b : Bool). (f x && g x) && b) (all-and f g xs)
  where
    and_swap : (a b c d : Bool) → ((a && c) && (b && d)) ≡ ((a && b) && (c && d))
    and_swap true true c d = refl
    and_swap true false true d = refl
    and_swap true false false d = refl
    and_swap false b c d = refl

all_declarations-and :
    (f g : SourceFile → Declaration → Bool) (files : List SourceFile)
    → (all_declarations f files && all_declarations g files)
      ≡ all_declarations (λ file d. f file d && g file d) files
all_declarations-and f g files =
    all-and (λ file. all (f file) file.syntax.decls) (λ file. all (g file) file.syntax.decls) files
    ∙ all-cong (λ file. all (f file) file.syntax.decls && all (g file) file.syntax.decls)
        (λ file. all (λ d. f file d && g file d) file.syntax.decls)
        (λ file. all-and (f file) (g file) file.syntax.decls) files

module _ (declarations : List (String × DeclInfo)) (files : List SourceFile)
    (agree : (key : String) → find key declarations ≡ find key (declared files)) where
  pub valid_declaration-agree :
      (file : SourceFile) (d : Declaration)
      → valid_declaration declarations file d ≡ valid_declaration (declared files) file d
  valid_declaration-agree file d =
      rw
        (
          valid_struct-agree declarations (declared files) agree file d,
          valid_interface-agree declarations (declared files) agree file d,
        )
        refl

  -- The last three passes, together, ask that each declaration be valid.
  Reports-passes :
      Reports
        (λ sink. each_declaration (validate_interface declarations) files (
          each_declaration
            (validate_struct declarations)
            files
            (each_declaration validate_enum files sink)))
        (all_declarations (valid_declaration (declared files)) files)
  Reports-passes =
      Reports-cong _ _ _
        (ap (λ (b : Bool). b && all_declarations (valid_interface declarations) files)
            (all_declarations-and (λ file. valid_enum) (valid_struct declarations) files)
          ∙ all_declarations-and (λ file d. valid_enum d && valid_struct declarations file d)
              (valid_interface declarations) files
          ∙ all-cong _ _ (λ file. all-cong _ _ (valid_declaration-agree file) file.syntax.decls)
              files)
        (Reports-then
          (λ sink.
            each_declaration (validate_struct declarations) files
              (each_declaration validate_enum files sink))
          (each_declaration (validate_interface declarations) files)
          (all_declarations (λ file. valid_enum) files
            && all_declarations (valid_struct declarations) files)
          (all_declarations (valid_interface declarations) files)
          (Reports-then (each_declaration validate_enum files)
            (each_declaration (validate_struct declarations) files)
            (all_declarations (λ file. valid_enum) files)
            (all_declarations (valid_struct declarations) files)
            (Reports-all_declarations validate_enum (λ file. valid_enum) Reports-enum files)
            (Reports-all_declarations (validate_struct declarations) (valid_struct declarations)
              (Reports-struct declarations) files))
          (Reports-all_declarations (validate_interface declarations) (valid_interface declarations)
            (Reports-interface declarations) files))

verdicts_add_up : (e a b c : Bool) → (((e || not a) || not b) || not c) ≡ (e || not ((a && b) && c))
verdicts_add_up true a b c = refl
verdicts_add_up false true true c = refl
verdicts_add_up false true false c = refl
verdicts_add_up false false b c = refl

-- A new validator reports an error on a program exactly if the program is not valid: two modules
-- have the same name, two declarations the same qualified name, or a declaration repeats a name or
-- an id, has an id out of bounds, or uses a type that is not accepted.
pub has_errors-run :
    (program : Program) (sink : List Diagnostic)
    → has_errors (run validator program sink)
      ≡ (has_errors sink || not (valid_program program.files))
unfolding run add_pass_factory register_default_passes instantiate_passes run_pass each
    enum_validation_pass struct_validation_pass interface_validation_pass valid_program
has_errors-run program sink =
    Reports-passes (indexed.declaration_index) program.files
      (find-declaration_index_pass program modules) indexed.diagnostics
    ∙ ap (λ (e : Bool). e || not all_valid)
        (has_errors-declaration_index_pass program modules
          ∙ ap (λ (e : Bool). e || not (distinct (map entry_key (entries program.files))))
              (has_errors-module_index_pass program start))
    ∙ verdicts_add_up (has_errors sink) (distinct (map module_name_of program.files))
        (distinct (map entry_key (entries program.files))) all_valid
  where
    start : Context
    start = record { module_index = []; declaration_index = []; diagnostics = sink }

    modules : Context
    modules = module_index_pass program start

    indexed : Context
    indexed = declaration_index_pass program modules

    all_valid : Bool
    all_valid = all_declarations (valid_declaration (declared program.files)) program.files
