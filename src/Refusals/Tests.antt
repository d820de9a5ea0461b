-- ===== src/Refusals/Tests.antt =====
-- Refused requests at concrete inputs: a number is no document.
use tricoredb_sdk_rust.Common.{ℕ, [], ◌∷◌, none, Text, codes, false}
use tricoredb_sdk_rust.Environment.Scripted.{scripted}
use tricoredb_sdk_rust.Fixtures.{document_codec, vector_codec}
use tricoredb_sdk_rust.Json.{Value, num, string}
use tricoredb_sdk_rust.Response.{Parsed, parsed}
use tricoredb_sdk_rust.Client.Sending.Requests.Outcomes.{RefusedHere}
use tricoredb_sdk_rust.Document.Kinds.{ReturnDocument}
use tricoredb_sdk_rust.Document.Settings.{ReplaceOptions}
use tricoredb_sdk_rust.Document.Stages.{DocumentFilter}
use tricoredb_sdk_rust.Document.Updates.{new_update}
use tricoredb_sdk_rust.Document.Writes.{
  document_insert, document_insert_with_id, document_insert_many, document_replace,
  document_update_one, document_upsert_one, document_update_many,
}
use tricoredb_sdk_rust.Llm.{OutputFormat, llm_context}
use tricoredb_sdk_rust.Refusals.{NotObject, requests_refused}
use tricoredb_sdk_rust.Vector.Collections.{vector_set_collection_config}

abbrev users : Text
users = codes "users"

abbrev as_number : ℕ → Parsed Value
as_number n = parsed (num n)

number-NotObject : NotObject as_number 4
number-NotObject fs h = cc

abbrev all_users : DocumentFilter
all_users = record { filter_value = string (codes "All") }

abbrev plainly : ReplaceOptions
plainly = record { upsert = false; return_document = ReturnDocument.none; expected_version = none }

requests_refused_example :
    RefusedHere scripted (document_insert scripted document_codec as_number users 4)
    × RefusedHere scripted (document_insert_with_id scripted document_codec as_number users users 4)
    × RefusedHere scripted
        (document_replace scripted document_codec as_number users users 4 plainly)
    × RefusedHere scripted
        (document_insert_many scripted document_codec as_number users (3 ∷ 4 ∷ 5 ∷ []))
    × RefusedHere scripted (document_update_one scripted document_codec users users new_update)
    × RefusedHere scripted (document_upsert_one scripted document_codec users users new_update)
    × RefusedHere scripted (document_update_many scripted document_codec users all_users new_update)
    × RefusedHere scripted (
        vector_set_collection_config scripted vector_codec users
          (record { normalize = none; m = none; ef_construction = none; multi_tenant = none }))
    × RefusedHere scripted (llm_context scripted [] OutputFormat.json none)
requests_refused_example =
    requests_refused scripted document_codec vector_codec as_number users users 4 (3 ∷ []) (5 ∷ [])
      plainly all_users OutputFormat.json none number-NotObject
