-- ===== src/Frontend/Semantic/Names.antt =====
-- Lists of names without repetition, and the loops that look for a repetition.
use text.Mathlib.Text.{◌==◌ as ◌is◌}
use hasten.Common.Texts.{is_comm}
use hasten.Common.{
  String, ◌≡◌, refl, ◌∙◌, ap, List, [], ◌∷◌, ◌++◌, map, Bool, true, false, not, ◌&&◌, ◌||◌,
  if◌then◌else◌,
}
use hasten.Frontend.Program.{SourceFile, Owner, ElementKind, error, report, locate, duplicate_name}
use hasten.Frontend.Semantic.{report_error}
use hasten.Frontend.Semantic.Passes.{Named, is_in, check_names, check_unique_names}
use hasten.Frontend.Semantic.Reports.{Reports, Reports-none, Reports-if, Reports-then, Reports-cong}

-- No two names of the list are the same.
unfoldable pub distinct : List String → Bool
distinct [] = true
distinct (name ∷ names) = not (is_in name names) && distinct names

-- No name of the second list is in the first.
unfoldable pub apart : List String → List String → Bool
apart seen [] = true
apart seen (name ∷ names) = not (is_in name seen) && apart seen names

apart_algebra : (q s h a : Bool) → (not (q || s) && (not h && a)) ≡ (not (q || h) && (not s && a))
apart_algebra true s h a = refl
apart_algebra false true true a = refl
apart_algebra false true false a = refl
apart_algebra false false true a = refl
apart_algebra false false false a = refl

pub apart-cons :
    (name : String) (seen names : List String)
    → apart (name ∷ seen) names ≡ (not (is_in name names) && apart seen names)
unfolding apart is_in
apart-cons name seen [] = refl
apart-cons name seen (n ∷ names) =
    rw (apart-cons name seen names, is_comm name n)
      (apart_algebra (n is name) (is_in n seen) (is_in name names) (apart seen names))

is_in-append :
    (name : String) (xs ys : List String) → is_in name (xs ++ ys) ≡ (is_in name xs || is_in name ys)
unfolding is_in
is_in-append name [] ys = refl
is_in-append name (x ∷ xs) ys =
    rw (is_in-append name xs ys) (or_assoc (x is name) (is_in name xs) (is_in name ys))
  where
    or_assoc : (a b c : Bool) → (a || (b || c)) ≡ ((a || b) || c)
    or_assoc true b c = refl
    or_assoc false b c = refl

-- It does not matter at which end a name is added.
pub apart-append :
    (name : String) (seen names : List String)
    → apart (seen ++ (name ∷ [])) names ≡ apart (name ∷ seen) names
unfolding apart is_in
apart-append name seen [] = refl
apart-append name seen (n ∷ names) =
    rw (apart-append name seen names, is_in-append n seen (name ∷ []))
      (ap (λ (b : Bool). not b && apart (name ∷ seen) names) (or_swap (is_in n seen) (name is n)))
  where
    or_swap : (a b : Bool) → (a || (b || false)) ≡ (b || a)
    or_swap true true = refl
    or_swap true false = refl
    or_swap false true = refl
    or_swap false false = refl

pub apart-nil : (names : List String) → apart [] names ≡ true
unfolding apart is_in
apart-nil [] = refl
apart-nil (name ∷ names) = apart-nil names

pub seen_algebra :
    (s a h d : Bool) → (not s && ((not h && a) && d)) ≡ ((not s && a) && (not h && d))
seen_algebra true a h d = refl
seen_algebra false a true d = and_false a
  where
    and_false : (x : Bool) → false ≡ (x && false)
    and_false true = refl
    and_false false = refl
seen_algebra false a false d = refl

abbrev pub name_of : Named → String
name_of node = node.name

module _ (file : SourceFile) (owner : Owner) (kind : ElementKind) where
  Reports-check_names :
      (seen : List String) (nodes : List Named)
      → Reports
          (check_names file owner kind seen nodes)
          (apart seen (map name_of nodes) && distinct (map name_of nodes))
  unfolding check_names apart distinct report_error
  Reports-check_names seen [] = Reports-none
  Reports-check_names seen (node ∷ nodes) =
      Reports-cong _ _ _
        (ap (λ (b : Bool). not (is_in node.name seen) && (b && distinct (map name_of nodes)))
            (apart-cons node.name seen (map name_of nodes))
          ∙ seen_algebra (is_in node.name seen) (apart seen (map name_of nodes))
              (is_in node.name (map name_of nodes)) (distinct (map name_of nodes)))
        (Reports-then
          (λ sink.
            if is_in node.name seen
            then report error (locate node.position file) (duplicate_name kind node.name owner) sink
            else sink)
          (check_names file owner kind (node.name ∷ seen) nodes) (not (is_in node.name seen)) _
          (Reports-if (is_in node.name seen) (locate node.position file) _)
          (Reports-check_names (node.name ∷ seen) nodes))

  pub Reports-check_unique_names :
      (nodes : List Named)
      → Reports (check_unique_names file owner kind nodes) (distinct (map name_of nodes))
  Reports-check_unique_names nodes =
      Reports-cong _ _ _
        (ap (λ (b : Bool). b && distinct (map name_of nodes)) (apart-nil (map name_of nodes)))
        (Reports-check_names [] nodes)
