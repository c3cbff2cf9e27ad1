-- ===== src/Codegen/Builder/Unit.antt =====
-- The modules of the unit, under their sorted names.
use text.Mathlib.Text.{◌==◌ as ◌is◌}
use text.Mathlib.TextEquality.{eq_iff}
use text.Mathlib.TextPositions.{eq_refl}
use hasten.Common.{
  is_some, is_some_of, String, ◌≡◌, refl, sym, ◌∙◌, ap, List, [], ◌∷◌, map, Bool, true, false, ◌||◌,
  Option, none, some, Bool-cases, inl, inr, if◌then◌else◌,
}
use hasten.Frontend.Program.{Program}
use hasten.Frontend.Semantic.Passes.{is_in, each}
use hasten.Codegen.Ir.{IrModule}
use hasten.Codegen.Builder.{
  add_file, find_module, is_before, insert_name, sort_names, module_at, ir_name,
  build_internal_representation,
}
use hasten.Codegen.Builder.Merge.{merged, find_module-each}

is_in-ir_name :
    (k : String) (modules : List IrModule)
    → is_in k (map ir_name modules) ≡ is_some (find_module k modules)
unfolding is_in find_module
is_in-ir_name k [] = refl
is_in-ir_name k (ir ∷ modules) = elim (Bool-cases (ir.name is k)) [
  | inl here ↦ rw here refl
  | inr other ↦ rw other (is_in-ir_name k modules)
]

or_swap : (a b c : Bool) → (a || (b || c)) ≡ (b || (a || c))
or_swap true true c = refl
or_swap true false c = refl
or_swap false b c = refl

is_in-insert_name :
    (k name : String) (names : List String)
    → is_in k (insert_name name names) ≡ (name is k || is_in k names)
unfolding is_in insert_name
is_in-insert_name k name [] = refl
is_in-insert_name k name (n ∷ names) = elim (Bool-cases (is_before n name)) [
  | inl before ↦
      rw (before, is_in-insert_name k name names) (or_swap (n is k) (name is k) (is_in k names))
  | inr behind ↦ rw behind refl
]

-- Sorting neither adds nor drops a name.
is_in-sort_names : (k : String) (names : List String) → is_in k (sort_names names) ≡ is_in k names
unfolding is_in sort_names
is_in-sort_names k [] = refl
is_in-sort_names k (name ∷ names) =
    is_in-insert_name k name (sort_names names) ∙ rw (is_in-sort_names k names) refl

abbrev name_or : String → Option IrModule → String
name_or k none = k
name_or k (some ir) = ir.name

find_module-name : (k : String) (modules : List IrModule) → name_or k (find_module k modules) ≡ k
unfolding find_module
find_module-name k [] = refl
find_module-name k (m ∷ modules) = elim (Bool-cases (m.name is k)) [
  | inl here ↦ rw here ((eq_iff m.name k).0 here)
  | inr other ↦ rw other (find_module-name k modules)
]

or_right : (a b : Bool) → b ≡ true → (a || b) ≡ true
or_right true b h = refl
or_right false b h = h

module_at-found :
    (n : String) (modules : List IrModule) (ir : IrModule)
    → find_module n modules ≡ some ir
    → module_at modules n ≡ ir
unfolding module_at
module_at-found n modules ir found = rw (found, module_at) refl

-- Looking up among the modules that are taken out of the map by their names.
find_module-map :
    (k : String) (modules : List IrModule) (names : List String)
    → ((n : String) → is_in n names ≡ true → (ir : IrModule) × (find_module n modules ≡ some ir))
    → find_module k (map (module_at modules) names)
      ≡ (if is_in k names then find_module k modules else none)
unfolding find_module is_in
find_module-map k modules [] there = refl
find_module-map k modules (n ∷ names) there = elim (Bool-cases (n is k)) [
  | inl here ↦
      rw (module_at-found n modules held.0 held.1, found_name, here)
        (sym held.1 ∙ ap (λ (t : String). find_module t modules) ((eq_iff n k).0 here))
  | inr other ↦
      rw (module_at-found n modules held.0 held.1, found_name, other)
        (find_module-map k modules names (λ m h. there m (or_right (n is m) (is_in m names) h)))
]
  where
    held : (ir : IrModule) × (find_module n modules ≡ some ir)
    held = there n (rw (eq_refl n) refl)

    found_name : held.0.name ≡ n
    found_name = ap (name_or n) (sym held.1) ∙ find_module-name n modules

find_module-nil : (k : String) → find_module k [] ≡ none
unfolding find_module
find_module-nil k = refl

-- The unit implements a map: a name is found in it exactly if a module of a file has the name, and
-- then with the parts of the name and, in the order of the files, the structures, the enumerations
-- and the interfaces of all the files whose module has that name.
pub find_module-build :
    (k : String) (program : Program)
    → find_module k (build_internal_representation program).modules ≡ merged k program.files
unfolding build_internal_representation
find_module-build k program =
    find_module-map k modules (sort_names (map ir_name modules)) there
    ∙ if_there (find_module k modules)
        (is_in-sort_names k (map ir_name modules) ∙ is_in-ir_name k modules)
    ∙ find_module-each k program.files [] (find_module-nil k)
  where
    modules : List IrModule
    modules = each add_file program.files []

    there :
        (n : String)
        → is_in n (sort_names (map ir_name modules)) ≡ true
        → (ir : IrModule) × (find_module n modules ≡ some ir)
    there n h =
        is_some_of (find_module n modules)
          (sym (is_in-sort_names n (map ir_name modules) ∙ is_in-ir_name n modules) ∙ h)

    if_there : {b : Bool} (o : Option IrModule) → b ≡ is_some o → (if b then o else none) ≡ o
    if_there none h = rw h refl
    if_there (some ir) h = rw h refl
