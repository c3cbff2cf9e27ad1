-- ===== src/Frontend/Ids.antt =====
-- src/frontend/semantic/utility.hpp: the checks of the ids of fields and parameters.
pub mod Laws
mod Examples
use hasten.Common.{ℕ, ◌+◌, ◌^◌, ◌%◌, List, [], ◌∷◌, Bool, false, ◌||◌, ltb, ◌==◌, if◌then◌else◌}
use hasten.Frontend.Program.{
  SourceLocation, Diagnostic, ElementKind, Owner, note, error, report, id_zero, id_too_large,
  duplicate_id, gap_between,
}

-- A field or a parameter, with the place that `locate` gives for it.
pub record Node : Type 0 where
  pub id : ℕ  -- uint64_t
  pub location : SourceLocation

abbrev pub max_id : ℕ
max_id = 0x7FFF_FFFF

unfoldable pub check_id_bounds : ElementKind → Owner → Node → List Diagnostic → List Diagnostic
check_id_bounds kind owner node sink =
    if node.id == 0
    then report error node.location (id_zero kind owner) sink
    else if ltb max_id node.id
    then report error node.location (id_too_large kind node.id owner) sink
    else sink

unfoldable pub is_seen : ℕ → List ℕ → Bool
is_seen id [] = false
is_seen id (i ∷ seen) = i == id || is_seen id seen

-- The first loop of `check_id_collection`, with the ids seen.
check_each : ElementKind → Owner → List ℕ → List Node → List Diagnostic → List Diagnostic
check_each kind owner seen [] sink = sink
check_each kind owner seen (node ∷ nodes) sink =
    let bounded = check_id_bounds kind owner node sink in
    let checked =
      if is_seen node.id seen
      then report error node.location (duplicate_id kind node.id owner) bounded
      else bounded in
    check_each kind owner (node.id ∷ seen) nodes checked

-- `std::sort` by the ids.
insert_node : Node → List Node → List Node
insert_node n [] = n ∷ []
insert_node n (m ∷ nodes) =
    let later = insert_node n nodes in if ltb m.id n.id then m ∷ later else n ∷ (m ∷ nodes)

sort_nodes : List Node → List Node
unfolding insert_node
sort_nodes [] = []
sort_nodes (n ∷ nodes) = insert_node n (sort_nodes nodes)

-- The second loop, behind a node with the id `prev`.
note_gaps : ElementKind → Owner → ℕ → List Node → List Diagnostic → List Diagnostic
note_gaps kind owner prev [] sink = sink
note_gaps kind owner prev (node ∷ nodes) sink =
    let noted =
      if ltb ((prev + 1) % 2 ^ 64) node.id
      then report note node.location (gap_between prev node.id kind owner) sink
      else sink in
    note_gaps kind owner node.id nodes noted

note_all_gaps : ElementKind → Owner → List Node → List Diagnostic → List Diagnostic
unfolding note_gaps
note_all_gaps kind owner [] sink = sink
note_all_gaps kind owner (node ∷ nodes) sink = note_gaps kind owner node.id nodes sink

unfoldable pub check_id_collection :
    ElementKind → Owner → List Node → List Diagnostic → List Diagnostic
unfolding check_each sort_nodes note_all_gaps
check_id_collection kind owner nodes sink =
    note_all_gaps kind owner (sort_nodes nodes) (check_each kind owner [] nodes sink)
