-- ===== src/Frontend/Ids/Laws.antt =====
-- When the ids of a list are refused.
use hasten.Common.{
  ℕ, ◌+◌, ◌%◌, ◌^◌, ◌≡◌, refl, sym, ◌∙◌, List, [], ◌∷◌, Bool, true, false, not, ◌&&◌, ◌||◌,
  Bool-cases, inl, inr, ltb, ◌==◌, if◌then◌else◌, arith,
}
use hasten.Frontend.Program.{
  Severity, note, error, Message, ElementKind, Owner, duplicate_id, SourceLocation, Diagnostic,
  report, is_error, any_of, has_errors,
}
use hasten.Frontend.Ids.{
  Node, max_id, check_id_bounds, is_seen, check_each, sort_nodes, note_gaps, note_all_gaps,
  check_id_collection,
}

-- The ids start at 1 and end at the largest signed number of 32 bits, and no two are the same.
abbrev pub in_bounds : Node → Bool
in_bounds node = not (node.id == 0) && not (ltb max_id node.id)

-- Another node has the id.
unfoldable pub has_id : ℕ → List Node → Bool
has_id id [] = false
has_id id (node ∷ nodes) = node.id == id || has_id id nodes

unfoldable pub valid_ids : List Node → Bool
valid_ids [] = true
valid_ids (node ∷ nodes) = in_bounds node && (not (has_id node.id nodes) && valid_ids nodes)

-- No node has an id of the list.
apart : List ℕ → List Node → Bool
apart seen [] = true
apart seen (node ∷ nodes) = not (is_seen node.id seen) && apart seen nodes

pub or_false : (b : Bool) → (b || false) ≡ b
or_false true = refl
or_false false = refl

pub or_assoc : (a b c : Bool) → (a || (b || c)) ≡ ((a || b) || c)
or_assoc true b c = refl
or_assoc false b c = refl

-- How the tests of a node add up.
tests_add_up :
    (e s a b h v : Bool)
    → (((e || not b) || s) || not ((not h && a) && v))
      ≡ (e || not ((not s && a) && (b && (not h && v))))
tests_add_up true s a b h v = refl
tests_add_up false true a true h v = refl
tests_add_up false true a false h v = refl
tests_add_up false false true true true v = refl
tests_add_up false false true true false v = refl
tests_add_up false false true false h v = refl
tests_add_up false false false true true v = refl
tests_add_up false false false true false v = refl
tests_add_up false false false false h v = refl

pub has_errors-report :
    (s : Severity) (at : SourceLocation) (m : Message) (sink : List Diagnostic)
    → has_errors (report s at m sink) ≡ (has_errors sink || is_error s)
unfolding any_of report
has_errors-report s at m [] = or_false (is_error s)
has_errors-report s at m (d ∷ sink) =
    rw (has_errors-report s at m sink)
      (or_assoc (is_error d.severity) (has_errors sink) (is_error s))

-- A report of an error under a condition.
pub has_errors-if :
    (b : Bool) (at : SourceLocation) (m : Message) (sink : List Diagnostic)
    → has_errors (if b then report error at m sink else sink) ≡ (has_errors sink || b)
has_errors-if true at m sink = has_errors-report error at m sink
has_errors-if false at m sink = sym (or_false (has_errors sink))

has_errors-bounds :
    (kind : ElementKind) (owner : Owner) (node : Node) (sink : List Diagnostic)
    → has_errors (check_id_bounds kind owner node sink) ≡ (has_errors sink || not (in_bounds node))
unfolding check_id_bounds
has_errors-bounds kind owner node sink = elim (Bool-cases (node.id == 0)) [
  | inl zeroed ↦ rw zeroed (has_errors-report error node.location _ sink)
  | inr some ↦ elim (Bool-cases (ltb max_id node.id)) [
    | inl large ↦ rw (some, large) (has_errors-report error node.location _ sink)
    | inr small ↦ rw (some, small) (sym (or_false (has_errors sink)))
  ]
]

==_comm : (a b : ℕ) → (a == b) ≡ (b == a)
==_comm a b = ground arith

apart_algebra : (q s h a : Bool) → (not (q || s) && (not h && a)) ≡ (not (q || h) && (not s && a))
apart_algebra true s h a = refl
apart_algebra false true true a = refl
apart_algebra false true false a = refl
apart_algebra false false true a = refl
apart_algebra false false false a = refl

apart-cons :
    (id : ℕ) (seen : List ℕ) (nodes : List Node)
    → apart (id ∷ seen) nodes ≡ (not (has_id id nodes) && apart seen nodes)
unfolding apart is_seen has_id
apart-cons id seen [] = refl
apart-cons id seen (node ∷ nodes) =
    rw (apart-cons id seen nodes, ==_comm id node.id)
      (apart_algebra (node.id == id) (is_seen node.id seen) (has_id id nodes) (apart seen nodes))

has_errors-each :
    (kind : ElementKind) (owner : Owner) (seen : List ℕ) (nodes : List Node)
    (sink : List Diagnostic)
    → has_errors (check_each kind owner seen nodes sink)
      ≡ (has_errors sink || not (apart seen nodes && valid_ids nodes))
unfolding check_each apart valid_ids
has_errors-each kind owner seen [] sink = sym (or_false (has_errors sink))
has_errors-each kind owner seen (node ∷ nodes) sink =
    has_errors-each kind owner (node.id ∷ seen) nodes _
    ∙ rw
        (
          has_errors-if (is_seen node.id seen) node.location (duplicate_id kind node.id owner)
              (check_id_bounds kind owner node sink),
          has_errors-bounds kind owner node sink,
          apart-cons node.id seen nodes,
        )
        (tests_add_up (has_errors sink) (is_seen node.id seen) (apart seen nodes) (in_bounds node)
          (has_id node.id nodes) (valid_ids nodes))

-- A note is no error.
has_errors-gaps :
    (kind : ElementKind) (owner : Owner) (prev : ℕ) (nodes : List Node) (sink : List Diagnostic)
    → has_errors (note_gaps kind owner prev nodes sink) ≡ has_errors sink
unfolding note_gaps
has_errors-gaps kind owner prev [] sink = refl
has_errors-gaps kind owner prev (node ∷ nodes) sink =
    elim (Bool-cases (ltb ((prev + 1) % 2 ^ 64) node.id)) [
      | inl gap ↦
          rw (gap, note_gaps)
            (has_errors-gaps kind owner node.id nodes _
              ∙ has_errors-report note node.location _ sink
              ∙ or_false (has_errors sink))
      | inr next ↦ rw (next, note_gaps) (has_errors-gaps kind owner node.id nodes sink)
    ]

has_errors-all_gaps :
    (kind : ElementKind) (owner : Owner) (nodes : List Node) (sink : List Diagnostic)
    → has_errors (note_all_gaps kind owner nodes sink) ≡ has_errors sink
unfolding note_all_gaps
has_errors-all_gaps kind owner [] sink = refl
has_errors-all_gaps kind owner (node ∷ nodes) sink = has_errors-gaps kind owner node.id nodes sink

apart-nil : (nodes : List Node) → apart [] nodes ≡ true
unfolding apart is_seen
apart-nil [] = refl
apart-nil (node ∷ nodes) = apart-nil nodes

-- The check of the ids of a list adds an error exactly if an id is 0 or above 2 ^ 31 - 1 or two ids
-- are the same; gaps between them add none.
pub has_errors-check_id_collection :
    (kind : ElementKind) (owner : Owner) (nodes : List Node) (sink : List Diagnostic)
    → has_errors (check_id_collection kind owner nodes sink)
      ≡ (has_errors sink || not (valid_ids nodes))
unfolding check_id_collection
has_errors-check_id_collection kind owner nodes sink =
    has_errors-all_gaps kind owner (sort_nodes nodes) (check_each kind owner [] nodes sink)
    ∙ has_errors-each kind owner [] nodes sink
    ∙ rw (apart-nil nodes) refl
