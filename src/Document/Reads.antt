-- ===== src/Document/Reads.antt =====
-- document.rs: the operations that read documents.
pub mod Outcomes
use mathlib.Core.Option
use tricoredb_sdk_rust.Act.{Act, lift, raise, pure, ◌>>=◌}
use tricoredb_sdk_rust.Common.{
  ℕ, zero, suc, Bool, true, false, List, [], ◌∷◌, ◌++◌, map, Option, none, some, Text, codes,
  is_empty, if◌then◌else◌, ◌==◌,
}
use tricoredb_sdk_rust.Common.Int.{ℤ}
use tricoredb_sdk_rust.Environment.{Environment}
use tricoredb_sdk_rust.Failure.{Error, Result, ok, err, invalid, protocol_error, collect}
use tricoredb_sdk_rust.Json.{Value, Fields, string, bool, num, array, obj, null}
use tricoredb_sdk_rust.Json.Maps.{entry, or_null}
use tricoredb_sdk_rust.Response.{Response, Parsed, parsed, malformed, parsed_or, expect, decode}
use tricoredb_sdk_rust.Client.{Call}
use tricoredb_sdk_rust.Client.Sending.{send}
use tricoredb_sdk_rust.Client.Sending.Requests.{send_decode, send_unit, send_begin, send_ending}
use tricoredb_sdk_rust.Document.Stages.{DocumentFilter, AggregateStage, sort_key_json}
use tricoredb_sdk_rust.Document.Updates.{
  DocumentUpdate, BulkOp, is_empty_update, update_json, bulk_json,
}
use tricoredb_sdk_rust.Document.Reports.{
  DocumentIndex, DocumentStats, UpdateCounts, ReplaceResult, PurgeCounts, DocumentPlan,
  IndexRebuild, DocumentCommit, BulkWriteResult, UpdateOne,
}
use tricoredb_sdk_rust.Document.Settings.{
  ReplaceOptions, ExplainOptions, CollectionOptions, return_json, collection_options_json,
}
use tricoredb_sdk_rust.Document.Codec.{DocumentCodec}
use tricoredb_sdk_rust.Document.{op, document_op, text_entry}

-- `into_iter().next()`.
pub first_of : List Fields → Option Fields
first_of [] = none
first_of (d ∷ ds) = some d

module _ {W A S T : Type 0} (env : Environment W A S T) (codec : DocumentCodec) where
  -- `serde_json::from_value`, its complaint named.
  read_documents : Text → Result Value → Result (List Fields)
  read_documents what (err e) = err e
  read_documents what (ok v) =
      parsed_or (codec.documents v)
        (codes "malformed Documents payload from " ++ (what ++ codes ": "))

  pub documents_of : Response → Text → Result (List Fields)
  unfolding read_documents
  documents_of r what = read_documents what (expect r (codes "Documents") what)

  pub document_get : Text → Text → Call env (Option Fields)
  unfolding documents_of first_of
  document_get collection id = do
    r ← send env (
        document_op (codes "Get")
          (text_entry (codes "collection") collection ∷ text_entry (codes "id") id ∷ []))
    ds ← lift (documents_of r (codes "Get"))
    pure (first_of ds)

  document_find_inner : Text → DocumentFilter → Value → Call env (List Fields)
  unfolding documents_of
  document_find_inner collection filter limit = do
    r ← send env (
        document_op (codes "Find") (
          text_entry (codes "collection") collection
          ∷ entry (codes "filter") filter.filter_value
          ∷ entry (codes "limit") limit
          ∷ []))
    lift (documents_of r (codes "Find"))

  pub document_find : Text → DocumentFilter → Call env (List Fields)
  unfolding document_find_inner
  document_find collection filter = document_find_inner collection filter null

  -- No limit is sent for a limit of zero.
  pub document_find_limit : Text → DocumentFilter → ℕ → Call env (List Fields)
  unfolding document_find_inner
  document_find_limit collection filter limit =
      document_find_inner collection filter (if limit == 0 then null else num limit)

  pub document_aggregate : Text → List AggregateStage → Call env (List Fields)
  unfolding documents_of
  document_aggregate collection pipeline = do
    r ← send env (
        document_op (codes "Aggregate") (
          text_entry (codes "collection") collection
          ∷ entry (codes "pipeline") (array (map (λ s. s.stage_value) pipeline))
          ∷ []))
    lift (documents_of r (codes "Aggregate"))
