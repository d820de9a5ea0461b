-- ===== src/Llm/Tests.antt =====
-- Exports at concrete inputs.
use tricoredb_sdk_rust.Common.{[], ◌∷◌, map, none, codes}
use tricoredb_sdk_rust.Environment.Scripted.{scripted}
use tricoredb_sdk_rust.Json.{num}
use tricoredb_sdk_rust.Json.Maps.{entry}
use tricoredb_sdk_rust.Json.{array}
use tricoredb_sdk_rust.Llm.{LlmSource, OutputFormat, llm_op, format_json, llm_context, llm_schema}
use tricoredb_sdk_rust.Llm.Rendering.{HandsText, sent_options, exports_outcome}

abbrev one_source : LlmSource
one_source = record { source_value = num 1 }

exports_outcome_example :
    HandsText scripted
      (llm_op (codes "Context") (
        entry (codes "sources") (array (map (λ s. s.source_value) (one_source ∷ [])))
        ∷ entry (codes "format") (format_json OutputFormat.toon)
        ∷ entry (codes "options") (sent_options none)
        ∷ []))
      (llm_context scripted (one_source ∷ []) OutputFormat.toon none)
    × HandsText scripted
        (llm_op (codes "Schema") (
          entry (codes "format") (format_json OutputFormat.toon)
          ∷ entry (codes "options") (sent_options none)
          ∷ []))
        (llm_schema scripted OutputFormat.toon none)
exports_outcome_example = exports_outcome scripted one_source [] OutputFormat.toon none
