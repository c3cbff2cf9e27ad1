-- ===== src/Frontend/Ids/Examples.antt =====
-- Three ids with a gap, and two that are the same.
use hasten.Common.{◌≡◌, refl, List, [], ◌∷◌, true, ℕ}
use hasten.Frontend.Program.{
  note, SourceLocation, gap_between, field, of_struct, report, any_of, has_errors,
}
use hasten.Frontend.Ids.{Node, check_id_bounds, is_seen, check_id_collection}
use hasten.Frontend.Ids.Laws.{has_id, valid_ids, has_errors-check_id_collection}

abbrev place : ℕ → SourceLocation
place n = record { file = 0x61 ∷ []; line = n; column = 1 }

abbrev with_gap : List Node
with_gap =
    record { id = 4; location = place 3 }
    ∷ record { id = 1; location = place 4 }
    ∷ record { id = 2; location = place 5 }
    ∷ []

abbrev twice : List Node
twice = record { id = 1; location = place 3 } ∷ record { id = 1; location = place 4 } ∷ []

gap_noted :
    check_id_collection field (of_struct "S") with_gap []
    ≡ record {
      severity = note;
      location = place 3;
      message = gap_between 2 4 field (of_struct "S");
    }
      ∷ []
unfolding check_id_collection check_id_bounds is_seen report
gap_noted = refl

has_errors-check_id_collection_example :
    has_errors (check_id_collection field (of_struct "S") twice []) ≡ true
unfolding any_of valid_ids has_id
has_errors-check_id_collection_example =
    has_errors-check_id_collection field (of_struct "S") twice []
