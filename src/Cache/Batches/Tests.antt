-- ===== src/Cache/Batches/Tests.antt =====
-- Batches at concrete inputs.
use tricoredb_sdk_rust.Common.{List, [], ◌∷◌, codes}
use tricoredb_sdk_rust.Environment.Scripted.{scripted}
use tricoredb_sdk_rust.Json.{num}
use tricoredb_sdk_rust.Cache.Tests.{codec}
use tricoredb_sdk_rust.Cache.Batches.{
  CacheCommand, batch_op, script_request, cache_pipeline, cache_transaction, cache_script_run,
}
use tricoredb_sdk_rust.Cache.Batches.Replies.{Replies, batches_outcome}

abbrev two_commands : List CacheCommand
two_commands = record { command_value = num 1 } ∷ record { command_value = num 2 } ∷ []

batches_outcome_example :
    Replies scripted codec
      (batch_op (codes "Pipeline") two_commands)
      (cache_pipeline scripted codec two_commands)
    × Replies scripted codec
        (batch_op (codes "Transaction") two_commands)
        (cache_transaction scripted codec two_commands)
    × Replies scripted codec
        (script_request (codes "sync") (codes "a" ∷ []))
        (cache_script_run scripted codec (codes "sync") (codes "a" ∷ []))
batches_outcome_example =
    batches_outcome scripted codec two_commands (codes "sync") (codes "a" ∷ [])
