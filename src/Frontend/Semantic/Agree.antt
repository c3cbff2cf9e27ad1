-- ===== src/Frontend/Semantic/Agree.antt =====
-- Two indices that find the same accept the same types and declarations.
use hasten.Common.Bools.{all}
use hasten.Common.{String, ◌≡◌, refl, ap, List, [], ◌∷◌, map, Bool, ◌&&◌, Option, none, some}
use hasten.Idl.Ast.{
  UserType, AstType, primitive, user_type, vector_of, map_of, optional_of, to_string, Field, Method,
  MethodResult, result_type, result_fields, Declaration, constant_declaration, enum_declaration,
  struct_declaration, interface_declaration,
}
use hasten.Frontend.Program.{SourceFile}
use hasten.Frontend.Ids.Laws.{valid_ids}
use hasten.Frontend.Semantic.{DeclInfo, find, lookup_type, qualified_name}
use hasten.Frontend.Semantic.Passes.{module_name_of, field_name, field_node}
use hasten.Frontend.Semantic.Types.{accepts, accepts_key}
use hasten.Frontend.Semantic.Checks.{
  valid_field, valid_parameter, valid_fields, valid_result, valid_method, valid_struct,
  valid_interface, valid_names,
}

pub all-cong :
    {A : Type 0} (f g : A → Bool) → ((x : A) → f x ≡ g x) → (xs : List A) → all f xs ≡ all g xs
unfolding all
all-cong f g same [] = refl
all-cong f g same (x ∷ xs) = rw (same x, all-cong f g same xs) refl

module _ (d e : List (String × DeclInfo)) (agree : (key : String) → find key d ≡ find key e) where
  lookup_type-agree :
      (module_name : String) (user : UserType)
      → lookup_type d module_name user ≡ lookup_type e module_name user
  unfolding lookup_type
  lookup_type-agree module_name user =
      rw (agree (to_string user.name), agree (qualified_name module_name (to_string user.name)))
        refl

  accepts_key-agree :
      (module_name : String) (key : AstType)
      → accepts_key d module_name key ≡ accepts_key e module_name key
  unfolding accepts_key
  accepts_key-agree module_name (primitive kind) = refl
  accepts_key-agree module_name (user_type user) = rw (lookup_type-agree module_name user) refl
  accepts_key-agree module_name (vector_of element) = refl
  accepts_key-agree module_name (map_of key value) = refl
  accepts_key-agree module_name (optional_of inner) = refl

  accepts-agree :
      (module_name : String) (type : AstType)
      → accepts d module_name type ≡ accepts e module_name type
  unfolding accepts
  accepts-agree module_name (primitive kind) = refl
  accepts-agree module_name (user_type user) = rw (lookup_type-agree module_name user) refl
  accepts-agree module_name (vector_of element) = accepts-agree module_name element
  accepts-agree module_name (map_of key value) =
      rw (accepts_key-agree module_name key, accepts-agree module_name value) refl
  accepts-agree module_name (optional_of inner) = rw (accepts-agree module_name inner) refl

  module _ (file : SourceFile) where
    valid_fields-agree :
        (fields : List Field) → valid_fields d file fields ≡ valid_fields e file fields
    valid_fields-agree fields =
        ap
          (λ (b : Bool).
            (valid_names (map field_name fields) && valid_ids (map (field_node file) fields)) && b)
          (all-cong (valid_field d file) (valid_field e file)
            (λ f. accepts-agree (module_name_of file) f.type) fields)

    valid_result-agree :
        (result : Option MethodResult) → valid_result d file result ≡ valid_result e file result
    valid_result-agree none = refl
    valid_result-agree (some (result_fields fields)) = valid_fields-agree fields
    valid_result-agree (some (result_type type)) = accepts-agree (module_name_of file) type

    valid_method-agree : (m : Method) → valid_method d file m ≡ valid_method e file m
    valid_method-agree m =
        rw
          (
            valid_result-agree m.result,
            all-cong (valid_parameter d file) (valid_parameter e file)
                (λ p. accepts-agree (module_name_of file) p.type) m.params,
          )
          refl

    pub valid_struct-agree :
        (decl : Declaration) → valid_struct d file decl ≡ valid_struct e file decl
    valid_struct-agree (struct_declaration s) = valid_fields-agree s.fields
    valid_struct-agree (constant_declaration c) = refl
    valid_struct-agree (enum_declaration s) = refl
    valid_struct-agree (interface_declaration i) = refl

    pub valid_interface-agree :
        (decl : Declaration) → valid_interface d file decl ≡ valid_interface e file decl
    valid_interface-agree (interface_declaration i) =
        rw (all-cong (valid_method d file) (valid_method e file) valid_method-agree i.methods) refl
    valid_interface-agree (struct_declaration s) = refl
    valid_interface-agree (constant_declaration c) = refl
    valid_interface-agree (enum_declaration s) = refl
