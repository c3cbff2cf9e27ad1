-- ===== src/Frontend/Semantic/Verdict.antt =====
-- When a program passes the validator.
use hasten.Common.Bools.{all}
use hasten.Common.{String, ◌≡◌, refl, sym, ◌∙◌, ap, List, [], ◌∷◌, ◌++◌, map, Bool, not, ◌&&◌, ◌||◌}
use hasten.Idl.Ast.{
  PositionTagged, Declaration, constant_declaration, enum_declaration, struct_declaration,
  interface_declaration,
}
use hasten.Frontend.Program.{SourceFile, Program, has_errors}
use hasten.Frontend.Semantic.{
  DeclKind, struct_kind, enum_kind, interface_kind, DeclInfo, Context, find, qualified_name,
  report_error,
}
use hasten.Frontend.Semantic.Passes.{
  each, module_name_of, index_module, module_index_pass, register_declaration, index_declaration,
  declaration_index_pass,
}
use hasten.Frontend.Semantic.Reports.{Reports-error}
use hasten.Frontend.Semantic.Names.{distinct, apart, apart-nil}
use hasten.Frontend.Semantic.Index.{Emplaces, find-each, has_errors-index}
use hasten.Frontend.Semantic.Checks.{valid_enum, valid_struct, valid_interface}

-- A declaration that goes to the index.
pub record Entry : Type 0 where
  pub file : SourceFile
  pub name : String
  pub position : PositionTagged
  pub kind : DeclKind

abbrev pub entries_of : SourceFile → List Declaration → List Entry
entries_of file [] = []
entries_of file (constant_declaration c ∷ decls) = entries_of file decls
entries_of file (enum_declaration e ∷ decls) =
    record { file = file; name = e.name; position = e.position; kind = enum_kind }
    ∷ entries_of file decls
entries_of file (struct_declaration s ∷ decls) =
    record { file = file; name = s.name; position = s.position; kind = struct_kind }
    ∷ entries_of file decls
entries_of file (interface_declaration i ∷ decls) =
    record { file = file; name = i.name; position = i.position; kind = interface_kind }
    ∷ entries_of file decls

unfoldable pub entries : List SourceFile → List Entry
entries [] = []
entries (file ∷ files) = entries_of file file.syntax.decls ++ entries files

abbrev pub entry_key : Entry → String
entry_key entry = qualified_name (module_name_of entry.file) entry.name

abbrev pub entry_info : Entry → DeclInfo
entry_info entry = record { kind = entry.kind; file = entry.file }

-- All the declarations of the program, by their qualified names.
abbrev pub declared : List SourceFile → List (String × DeclInfo)
declared files = map (λ entry. (entry_key entry, entry_info entry)) (entries files)

-- Nothing is wrong within the declaration.
abbrev pub valid_declaration : List (String × DeclInfo) → SourceFile → Declaration → Bool
valid_declaration declarations file d =
    (valid_enum d && valid_struct declarations file d) && valid_interface declarations file d

-- No two modules have the same name, no two declarations the same qualified name, and each
-- declaration is valid among all of them.
unfoldable pub valid_program : List SourceFile → Bool
valid_program files =
    (distinct (map module_name_of files) && distinct (map entry_key (entries files)))
    && all (λ file. all (valid_declaration (declared files) file) file.syntax.decls) files

module_index-Emplaces :
    Emplaces module_name_of (λ file. file) (λ context. context.module_index) index_module
unfolding index_module report_error
module_index-Emplaces = record {
  fresh = λ a context free. (rw (free, index_module) refl, rw (free, index_module) refl);
  taken = λ a context v held. (
    rw (held, index_module) refl,
    rw (held, index_module) (Reports-error _ _ context.diagnostics),
  );
}

abbrev register_entry : Entry → Context → Context
register_entry entry context =
    register_declaration entry.file entry.name entry.position entry.kind context

declaration_index-Emplaces :
    Emplaces entry_key entry_info (λ context. context.declaration_index) register_entry
unfolding register_declaration report_error
declaration_index-Emplaces = record {
  fresh = λ a context free.
      (rw (free, register_declaration) refl, rw (free, register_declaration) refl);
  taken = λ a context v held. (
    rw (held, register_declaration) refl,
    rw (held, register_declaration) (Reports-error _ _ context.diagnostics),
  );
}

-- The nested loops of the pass go over the entries.
each-entries_of :
    (file : SourceFile) (decls : List Declaration) (context : Context)
    → each (index_declaration file) decls context
      ≡ each register_entry (entries_of file decls) context
unfolding each index_declaration
each-entries_of file [] context = refl
each-entries_of file (constant_declaration c ∷ decls) context = each-entries_of file decls context
each-entries_of file (enum_declaration e ∷ decls) context = each-entries_of file decls _
each-entries_of file (struct_declaration s ∷ decls) context = each-entries_of file decls _
each-entries_of file (interface_declaration i ∷ decls) context = each-entries_of file decls _

each-append :
    {A S : Type 0} (step : A → S → S) (xs ys : List A) (state : S)
    → each step (xs ++ ys) state ≡ each step ys (each step xs state)
unfolding each
each-append step [] ys state = refl
each-append step (x ∷ xs) ys state = each-append step xs ys (step x state)

each-entries :
    (files : List SourceFile) (context : Context)
    → each (λ file. each (index_declaration file) file.syntax.decls) files context
      ≡ each register_entry (entries files) context
unfolding each entries
each-entries [] context = refl
each-entries (file ∷ files) context =
    each-entries files _
    ∙ ap (each register_entry (entries files)) (each-entries_of file file.syntax.decls context)
    ∙ sym (each-append register_entry (entries_of file file.syntax.decls) (entries files) context)

or_apart :
    (names : List String) (e : Bool)
    → (e || not (apart [] names && distinct names)) ≡ (e || not (distinct names))
or_apart names e = rw (apart-nil names) refl

pub has_errors-module_index_pass :
    (program : Program) (context : Context)
    → has_errors (module_index_pass program context).diagnostics
      ≡ (has_errors context.diagnostics || not (distinct (map module_name_of program.files)))
unfolding module_index_pass
has_errors-module_index_pass program context =
    has_errors-index module_index-Emplaces program.files _ ∙ or_apart _ _

pub has_errors-declaration_index_pass :
    (program : Program) (context : Context)
    → has_errors (declaration_index_pass program context).diagnostics
      ≡ (has_errors context.diagnostics || not (distinct (map entry_key (entries program.files))))
unfolding declaration_index_pass
has_errors-declaration_index_pass program context =
    ap (λ (c : Context). has_errors c.diagnostics) (each-entries program.files _)
    ∙ has_errors-index declaration_index-Emplaces (entries program.files) _
    ∙ or_apart _ _

-- After the second pass, a qualified name is looked up among all the declarations of the program.
pub find-declaration_index_pass :
    (program : Program) (context : Context) (name : String)
    → find name (declaration_index_pass program context).declaration_index
      ≡ find name (declared program.files)
unfolding declaration_index_pass
find-declaration_index_pass program context name =
    ap (λ (c : Context). find name c.declaration_index) (each-entries program.files _)
    ∙ find-each declaration_index-Emplaces name (entries program.files) _
