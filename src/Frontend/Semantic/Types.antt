-- ===== src/Frontend/Semantic/Types.antt =====
-- Which types the validator takes, by rules and as a test, and that `validate` finds them.
use mathlib.Core.Bool.{false≢true}
use hasten.Common.Bools.{left_of_both, right_of_both, false_of_not, true_of_not}
use hasten.Common.{
  is_some, is_some_of, String, ◌≡◌, refl, sym, ◌∙◌, List, [], Bool, true, false, not, ◌&&◌, Option,
  none, some, ◌↔◌, if◌then◌else◌, Option-cases, Bool-cases, inl, inr,
}
use hasten.Idl.Ast.{
  PositionTagged, PrimitiveKind, UserType, AstType, primitive, user_type, vector_of, map_of,
  optional_of,
}
use hasten.Frontend.Program.{
  SourceFile, Usage, error, report, has_errors, any_of, locate, nested_optional, bad_map_key,
  vector_element, map_key, map_value, inner_optional, in_optional,
}
use hasten.Frontend.Semantic.{
  DeclInfo, report_error, lookup_type, is_enum_kind, is_no_enum, is_optional, resolve_user_type,
  validate_map_key, validate,
}
use hasten.Frontend.Semantic.Reports.{
  Reports, Reports-none, Reports-error, Reports-if, Reports-then, Reports-cong,
}

abbrev is_enum_info : Option DeclInfo → Bool
is_enum_info none = false
is_enum_info (some info) = is_enum_kind info.kind

module _ (declarations : List (String × DeclInfo)) (module_name : String) where
  -- A key of a map: a primitive type or a declared enumeration.
  pub data KeyType : AstType → Type 0 where
    primitive_key : (kind : PrimitiveKind) → KeyType (primitive kind)
    enum_key :
        (user : UserType) (info : DeclInfo)
        → lookup_type declarations module_name user ≡ some info
        → is_enum_kind info.kind ≡ true
        → KeyType (user_type user)

  -- The types that a program may use: every name is declared, and no optional is in an optional.
  pub data WellFormed : AstType → Type 0 where
    primitive_type : (kind : PrimitiveKind) → WellFormed (primitive kind)
    declared :
        (user : UserType) (info : DeclInfo)
        → lookup_type declarations module_name user ≡ some info
        → WellFormed (user_type user)
    vector : (element : AstType) → WellFormed element → WellFormed (vector_of element)
    map : (key value : AstType) → KeyType key → WellFormed value → WellFormed (map_of key value)
    optional :
        (inner : AstType)
        → is_optional inner ≡ false
        → WellFormed inner
        → WellFormed (optional_of inner)

  unfoldable pub accepts_key : AstType → Bool
  accepts_key (primitive kind) = true
  accepts_key (user_type user) = is_enum_info (lookup_type declarations module_name user)
  accepts_key _ = false

  unfoldable pub accepts : AstType → Bool
  accepts (primitive kind) = true
  accepts (user_type user) = is_some (lookup_type declarations module_name user)
  accepts (vector_of element) = accepts element
  accepts (map_of key value) = accepts_key key && accepts value
  accepts (optional_of inner) = not (is_optional inner) && accepts inner

  module _ (file : SourceFile) where
    Reports-resolve :
        (user : UserType) (usage : Usage)
        → Reports
            (resolve_user_type declarations module_name file user usage)
            (is_some (lookup_type declarations module_name user))
    unfolding resolve_user_type report_error
    Reports-resolve user usage sink =
        elim (Option-cases (lookup_type declarations module_name user)) [
          | inl missing ↦
              rw (missing, resolve_user_type) (Reports-error (locate user.position file) _ sink)
          | inr (info, found) ↦ rw (found, resolve_user_type) (Reports-none sink)
        ]

    module _ (anchor : PositionTagged) where
      key_verdict : (o : Option DeclInfo) → (is_some o && not (is_no_enum o)) ≡ is_enum_info o
      key_verdict none = refl
      key_verdict (some info) = twice_not (is_enum_kind info.kind)
        where
          twice_not : (b : Bool) → not (not b) ≡ b
          twice_not true = refl
          twice_not false = refl

      Reports-key :
          (key : AstType) (usage : Usage)
          → Reports
              (validate_map_key declarations module_name file anchor key usage)
              (accepts_key key)
      unfolding validate_map_key report_error accepts_key
      Reports-key (primitive kind) usage = Reports-none
      Reports-key (user_type user) usage =
          Reports-cong _ _ _ (key_verdict (lookup_type declarations module_name user)) (
            Reports-then (resolve_user_type declarations module_name file user (map_key usage))
              (λ sink.
                if is_no_enum (lookup_type declarations module_name user)
                then report error (locate anchor file) (bad_map_key usage) sink
                else sink)
              (is_some (lookup_type declarations module_name user))
              (not (is_no_enum (lookup_type declarations module_name user)))
              (Reports-resolve user (map_key usage))
              (Reports-if _ (locate anchor file) (bad_map_key usage)))
      Reports-key (vector_of element) usage = Reports-error (locate anchor file) _
      Reports-key (map_of key value) usage = Reports-error (locate anchor file) _
      Reports-key (optional_of inner) usage = Reports-error (locate anchor file) _

      -- Each type is validated with an error exactly if the test refuses it.
      pub Reports-validate :
          (type : AstType) (usage : Usage)
          → Reports (validate declarations module_name file anchor type usage) (accepts type)
      unfolding validate report_error accepts
      Reports-validate (primitive kind) usage sink = Reports-none sink
      Reports-validate (user_type user) usage sink = Reports-resolve user usage sink
      Reports-validate (vector_of element) usage sink =
          Reports-validate element (vector_element usage) sink
      Reports-validate (map_of key value) usage sink =
          Reports-then (validate_map_key declarations module_name file anchor key usage)
            (validate declarations module_name file anchor value (map_value usage))
            (accepts_key key) (accepts value) (Reports-key key usage)
            (Reports-validate value (map_value usage)) sink
      Reports-validate (optional_of inner) usage sink = elim (Bool-cases (is_optional inner)) [
        | inl nested ↦
            rw (nested, validate)
              (Reports-then (report error (locate anchor file) (nested_optional usage))
                (validate declarations module_name file anchor inner (inner_optional usage)) false
                (accepts inner) (Reports-error (locate anchor file) (nested_optional usage))
                (Reports-validate inner (inner_optional usage)) sink)
        | inr plain ↦ rw (plain, validate) (Reports-validate inner (in_optional usage) sink)
      ]

  enum_info_of :
      (o : Option DeclInfo)
      → is_enum_info o ≡ true
      → (info : DeclInfo) × ((o ≡ some info) × (is_enum_kind info.kind ≡ true))
  enum_info_of none h = absurd (false≢true h)
  enum_info_of (some info) h = (info, (refl, h))

  key_of_test : (key : AstType) → accepts_key key ≡ true → KeyType key
  unfolding accepts_key
  key_of_test (primitive kind) h = primitive_key kind
  key_of_test (user_type user) h =
      let (info, found) = enum_info_of (lookup_type declarations module_name user) h in
      enum_key user info found.0 found.1
  key_of_test (vector_of element) h = absurd (false≢true h)
  key_of_test (map_of key value) h = absurd (false≢true h)
  key_of_test (optional_of inner) h = absurd (false≢true h)

  test_of_key : (key : AstType) → KeyType key → accepts_key key ≡ true
  unfolding accepts_key
  test_of_key _ (primitive_key kind) = refl
  test_of_key _ (enum_key user info found kind) = rw found kind

  pub type_of_test : (type : AstType) → accepts type ≡ true → WellFormed type
  unfolding accepts
  type_of_test (primitive kind) h = primitive_type kind
  type_of_test (user_type user) h =
      let (info, found) = is_some_of (lookup_type declarations module_name user) h in
      declared user info found
  type_of_test (vector_of element) h = vector element (type_of_test element h)
  type_of_test (map_of key value) h =
      map key value (key_of_test key (left_of_both _ _ h))
        (type_of_test value (right_of_both _ _ h))
  type_of_test (optional_of inner) h =
      optional inner (false_of_not (is_optional inner) (left_of_both _ _ h))
        (type_of_test inner (right_of_both _ _ h))

  pub test_of_type : (type : AstType) → WellFormed type → accepts type ≡ true
  unfolding accepts
  test_of_type _ (primitive_type kind) = refl
  test_of_type _ (declared user info found) = rw found refl
  test_of_type _ (vector element inner) = test_of_type element inner
  test_of_type _ (map key value k v) = rw (test_of_key key k, test_of_type value v) refl
  test_of_type _ (optional inner plain t) = rw (plain, test_of_type inner t) refl

  -- Validating a type reports no error exactly if the type is well formed: by the rules, each name
  -- in it is declared, each key of a map is primitive or an enumeration, and no optional is
  -- directly in an optional.
  pub validate-WellFormed :
      (file : SourceFile) (anchor : PositionTagged) (usage : Usage) (type : AstType)
      → (has_errors (validate declarations module_name file anchor type usage []) ≡ false)
        ↔ WellFormed type
  unfolding any_of
  validate-WellFormed file anchor usage type = (
    λ clean.
        type_of_test type
          (true_of_not (accepts type) (sym (Reports-validate file anchor type usage []) ∙ clean)),
    λ formed. Reports-validate file anchor type usage [] ∙ rw (test_of_type type formed) refl,
  )
