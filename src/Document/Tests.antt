-- ===== src/Document/Tests.antt =====
-- Documents at concrete inputs.
use tricoredb_sdk_rust.Common.{◌≡◌, ◌↔◌, true, List, [], ◌∷◌, none, Text, codes}
use tricoredb_sdk_rust.Json.{find_field, num, string}
use tricoredb_sdk_rust.Json.Maps.{last_set}
use tricoredb_sdk_rust.Document.Stages.{DocumentFilter, AggregateStage}
use tricoredb_sdk_rust.Document.Updates.{is_empty_update, new_update}
use tricoredb_sdk_rust.Document.Updates.Building.{
  UpdateStep, applied_all, sets_of, incs_of, built_update,
}

abbrev age : Text
age = codes "age"

abbrev steps : List UpdateStep
steps =
    UpdateStep.set_to age (num 1)
    ∷ UpdateStep.inc_by (codes "visits") (num 2)
    ∷ UpdateStep.set_to age (num 3)
    ∷ []

built_update_example :
    (find_field age (applied_all steps new_update).set ≡ last_set age (sets_of steps) none)
    × (find_field age (applied_all steps new_update).inc ≡ last_set age (incs_of steps) none)
    × ((is_empty_update (applied_all steps new_update) ≡ true) ↔ (steps ≡ []))
built_update_example = built_update steps age

abbrev users : Text
users = codes "users"

abbrev all_users : DocumentFilter
all_users = record { filter_value = string (codes "All") }

abbrev pipeline : List AggregateStage
pipeline = record { stage_value = num 5 } ∷ []
