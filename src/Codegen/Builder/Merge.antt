-- ===== src/Codegen/Builder/Merge.antt =====
-- Which modules the representation has: each name of a module once, with the declarations of all
-- the files of that name.
use text.Mathlib.Text.{◌==◌ as ◌is◌}
use text.Mathlib.TextEquality.{eq_iff}
use hasten.Common.Texts.{never_both, if_swap, if_twice}
use hasten.Common.{
  String, ◌≡◌, refl, sym, ◌∙◌, ap, List, [], ◌∷◌, ◌++◌, append_assoc, append-nil, map, Bool, Option,
  none, some, Bool-cases, inl, inr, if◌then◌else◌,
}
use hasten.Idl.Ast.{
  Struct, Enum, Interface, Declaration, constant_declaration, enum_declaration, struct_declaration,
  interface_declaration,
}
use hasten.Frontend.Program.{SourceFile}
use hasten.Frontend.Semantic.Passes.{is_in, each, module_name_of}
use hasten.Codegen.Ir.{IrModule}
use hasten.Codegen.Builder.{
  make_struct, make_enum, make_interface, add_declaration, new_module, update_module, add_file,
  find_module, ir_name,
}

abbrev pub structs_of : List Declaration → List Struct
structs_of [] = []
structs_of (struct_declaration s ∷ decls) = s ∷ structs_of decls
structs_of (constant_declaration c ∷ decls) = structs_of decls
structs_of (enum_declaration e ∷ decls) = structs_of decls
structs_of (interface_declaration i ∷ decls) = structs_of decls

abbrev pub enums_of : List Declaration → List Enum
enums_of [] = []
enums_of (enum_declaration e ∷ decls) = e ∷ enums_of decls
enums_of (constant_declaration c ∷ decls) = enums_of decls
enums_of (struct_declaration s ∷ decls) = enums_of decls
enums_of (interface_declaration i ∷ decls) = enums_of decls

abbrev pub interfaces_of : List Declaration → List Interface
interfaces_of [] = []
interfaces_of (interface_declaration i ∷ decls) = i ∷ interfaces_of decls
interfaces_of (constant_declaration c ∷ decls) = interfaces_of decls
interfaces_of (struct_declaration s ∷ decls) = interfaces_of decls
interfaces_of (enum_declaration e ∷ decls) = interfaces_of decls

-- The declarations behind those that a module has.
abbrev pub extend : List Declaration → IrModule → IrModule
extend decls ir = record {
  name = ir.name;
  namespace_parts = ir.namespace_parts;
  structs = ir.structs ++ map make_struct (structs_of decls);
  enums = ir.enums ++ map make_enum (enums_of decls);
  interfaces = ir.interfaces ++ map make_interface (interfaces_of decls);
}

each-add_declaration :
    (decls : List Declaration) (ir : IrModule) → each add_declaration decls ir ≡ extend decls ir
unfolding each add_declaration
each-add_declaration [] ir =
    rw (append-nil ir.structs, append-nil ir.enums, append-nil ir.interfaces) refl
each-add_declaration (constant_declaration c ∷ decls) ir = each-add_declaration decls ir
each-add_declaration (struct_declaration s ∷ decls) ir =
    each-add_declaration decls _
    ∙ rw (append_assoc ir.structs (make_struct s ∷ []) (map make_struct (structs_of decls))) refl
each-add_declaration (enum_declaration e ∷ decls) ir =
    each-add_declaration decls _
    ∙ rw (append_assoc ir.enums (make_enum e ∷ []) (map make_enum (enums_of decls))) refl
each-add_declaration (interface_declaration i ∷ decls) ir =
    each-add_declaration decls _
    ∙ rw
        (append_assoc ir.interfaces (make_interface i ∷ [])
          (map make_interface (interfaces_of decls)))
        refl

abbrev or_new : String → Option IrModule → IrModule
or_new name none = new_module name
or_new name (some ir) = ir

-- What is found after a module has been changed, if the change keeps its name.
find_module-update :
    (k name : String) (change : IrModule → IrModule) (modules : List IrModule)
    → ((ir : IrModule) → (change ir).name ≡ ir.name)
    → find_module k (update_module name change modules) ≡ (
        if name is k
        then some (change (or_new name (find_module name modules)))
        else find_module k modules)
unfolding find_module update_module new_module
find_module-update k name change [] keeps = rw (keeps (new_module name)) refl
find_module-update k name change (ir ∷ modules) keeps = elim (Bool-cases (ir.name is name)) [
  | inl here ↦ rw (here, keeps ir, (eq_iff ir.name name).0 here) (if_twice (name is k) _ _ _)
  | inr elsewhere ↦ rw elsewhere (
      ap (λ (o : Option IrModule). if ir.name is k then some ir else o)
        (find_module-update k name change modules keeps)
      ∙ if_swap (ir.name is k) (name is k) _ _ _ (never_both ir.name name k elsewhere))
]

-- The declarations of all the files of a module, in the order of the files.
unfoldable pub decls_of : String → List SourceFile → List Declaration
decls_of k [] = []
decls_of k (file ∷ files) =
    let later = decls_of k files in
    if module_name_of file is k then file.syntax.decls ++ later else later

-- What a module has if there is a file of that name.
unfoldable pub merged : String → List SourceFile → Option IrModule
merged k files =
    if is_in k (map module_name_of files)
    then some (extend (decls_of k files) (new_module k))
    else none

structs_of-append :
    (xs ys : List Declaration) → structs_of (xs ++ ys) ≡ structs_of xs ++ structs_of ys
structs_of-append [] ys = refl
structs_of-append (struct_declaration s ∷ xs) ys =
    ap (λ (t : List Struct). s ∷ t) (structs_of-append xs ys)
structs_of-append (constant_declaration c ∷ xs) ys = structs_of-append xs ys
structs_of-append (enum_declaration e ∷ xs) ys = structs_of-append xs ys
structs_of-append (interface_declaration i ∷ xs) ys = structs_of-append xs ys

enums_of-append : (xs ys : List Declaration) → enums_of (xs ++ ys) ≡ enums_of xs ++ enums_of ys
enums_of-append [] ys = refl
enums_of-append (enum_declaration e ∷ xs) ys = ap (λ (t : List Enum). e ∷ t) (enums_of-append xs ys)
enums_of-append (constant_declaration c ∷ xs) ys = enums_of-append xs ys
enums_of-append (struct_declaration s ∷ xs) ys = enums_of-append xs ys
enums_of-append (interface_declaration i ∷ xs) ys = enums_of-append xs ys

interfaces_of-append :
    (xs ys : List Declaration) → interfaces_of (xs ++ ys) ≡ interfaces_of xs ++ interfaces_of ys
interfaces_of-append [] ys = refl
interfaces_of-append (interface_declaration i ∷ xs) ys =
    ap (λ (t : List Interface). i ∷ t) (interfaces_of-append xs ys)
interfaces_of-append (constant_declaration c ∷ xs) ys = interfaces_of-append xs ys
interfaces_of-append (struct_declaration s ∷ xs) ys = interfaces_of-append xs ys
interfaces_of-append (enum_declaration e ∷ xs) ys = interfaces_of-append xs ys

map-append : {A B : Type 0} (f : A → B) (xs ys : List A) → map f (xs ++ ys) ≡ map f xs ++ map f ys
map-append f [] ys = refl
map-append f (x ∷ xs) ys = ap (λ t. f x ∷ t) (map-append f xs ys)

extend-append :
    (xs ys : List Declaration) (ir : IrModule) → extend (xs ++ ys) ir ≡ extend ys (extend xs ir)
extend-append xs ys ir =
    rw
      (
        structs_of-append xs ys,
        enums_of-append xs ys,
        interfaces_of-append xs ys,
        map-append make_struct (structs_of xs) (structs_of ys),
        map-append make_enum (enums_of xs) (enums_of ys),
        map-append make_interface (interfaces_of xs) (interfaces_of ys),
        append_assoc ir.structs (map make_struct (structs_of xs)) (map make_struct (structs_of ys)),
        append_assoc ir.enums (map make_enum (enums_of xs)) (map make_enum (enums_of ys)),
        append_assoc ir.interfaces (map make_interface (interfaces_of xs))
            (map make_interface (interfaces_of ys)),
      )
      refl

find_module-add_file :
    (k : String) (file : SourceFile) (modules : List IrModule)
    → find_module k (add_file file modules) ≡ (
        if module_name_of file is k
        then some (extend file.syntax.decls (or_new k (find_module k modules)))
        else find_module k modules)
unfolding add_file
find_module-add_file k file modules =
    find_module-update k (module_name_of file) (each add_declaration file.syntax.decls) modules
      (λ ir. ap ir_name (each-add_declaration file.syntax.decls ir))
    ∙ elim (Bool-cases (module_name_of file is k)) [
      | inl same ↦
          rw (same, (eq_iff (module_name_of file) k).0 same)
            (ap some (each-add_declaration file.syntax.decls (or_new k (find_module k modules))))
      | inr other ↦ rw other refl
    ]

extend-nil : (ir : IrModule) → extend [] ir ≡ ir
extend-nil ir = rw (append-nil ir.structs, append-nil ir.enums, append-nil ir.interfaces) refl

-- A module that there is gets the declarations of the files of its name.
find_module-extend :
    (k : String) (files : List SourceFile) (modules : List IrModule) (ir : IrModule)
    → find_module k modules ≡ some ir
    → find_module k (each add_file files modules) ≡ some (extend (decls_of k files) ir)
unfolding each decls_of
find_module-extend k [] modules ir found = found ∙ ap some (sym (extend-nil ir))
find_module-extend k (file ∷ files) modules ir found =
    elim (Bool-cases (module_name_of file is k)) [
      | inl same ↦
          find_module-extend k files (add_file file modules) (extend file.syntax.decls ir)
            (find_module-add_file k file modules ∙ rw (same, found) refl)
          ∙ ap some (sym (extend-append file.syntax.decls (decls_of k files) ir))
          ∙ ap
              (λ (b : Bool).
                some (
                  extend (if b then file.syntax.decls ++ decls_of k files else decls_of k files)
                    ir))
              (sym same)
      | inr other ↦
          find_module-extend k files (add_file file modules) ir
            (find_module-add_file k file modules ∙ rw (other, found) refl)
          ∙ ap
              (λ (b : Bool).
                some (
                  extend (if b then file.syntax.decls ++ decls_of k files else decls_of k files)
                    ir))
              (sym other)
    ]

-- What the map of modules has after the loop over the files.
pub find_module-each :
    (k : String) (files : List SourceFile) (modules : List IrModule)
    → find_module k modules ≡ none
    → find_module k (each add_file files modules) ≡ merged k files
unfolding each merged decls_of is_in
find_module-each k [] modules missing = missing
find_module-each k (file ∷ files) modules missing = elim (Bool-cases (module_name_of file is k)) [
  | inl same ↦
      find_module-extend k files (add_file file modules) (extend file.syntax.decls (new_module k))
        (find_module-add_file k file modules ∙ rw (same, missing) refl)
      ∙ rw same (ap some (sym (extend-append file.syntax.decls (decls_of k files) (new_module k))))
  | inr other ↦
      find_module-each k files (add_file file modules)
        (find_module-add_file k file modules ∙ rw (other, missing) refl)
      ∙ rw other refl
]
