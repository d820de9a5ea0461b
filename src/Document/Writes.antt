-- ===== src/Document/Writes.antt =====
-- document.rs: the operations that write documents. How a document is serialised is a parameter.
use mathlib.Core.Option
use tricoredb_sdk_rust.Act.{lift, raise, pure, ◌>>=◌}
use tricoredb_sdk_rust.Common.{
  Bool, true, false, List, [], ◌∷◌, ◌++◌, map, Text, codes, is_empty, if◌then◌else◌,
}
use tricoredb_sdk_rust.Common.Int.{ℤ}
use tricoredb_sdk_rust.Environment.{Environment}
use tricoredb_sdk_rust.Failure.{Error, Result, ok, err, invalid, protocol_error, collect}
use tricoredb_sdk_rust.Json.{Value, Fields, string, bool, num, array, obj, null}
use tricoredb_sdk_rust.Json.Maps.{entry}
use tricoredb_sdk_rust.Response.{Parsed, parsed, malformed, decode}
use tricoredb_sdk_rust.Client.{Call}
use tricoredb_sdk_rust.Client.Sending.{send}
use tricoredb_sdk_rust.Client.Sending.Requests.{send_decode, send_unit}
use tricoredb_sdk_rust.Document.Stages.{DocumentFilter}
use tricoredb_sdk_rust.Document.Updates.{
  DocumentUpdate, BulkOp, is_empty_update, update_json, bulk_json,
}
use tricoredb_sdk_rust.Document.Reports.{UpdateCounts, ReplaceResult, BulkWriteResult, UpdateOne}
use tricoredb_sdk_rust.Document.Settings.{ReplaceOptions, return_json}
use tricoredb_sdk_rust.Document.Codec.{DocumentCodec}
use tricoredb_sdk_rust.Document.{document_op, text_entry}

-- Only what encodes to an object is a document.
unfoldable pub as_object : Parsed Value → Result Value
as_object (malformed e) = err (invalid (codes "the document cannot be encoded as JSON: " ++ e))
as_object (parsed (Value.obj fs)) = ok (obj fs)
as_object (parsed _) =
    err (invalid (codes "a document must encode to a JSON object, not a scalar or an array"))

unfoldable pub object_value : {D : Type 0} → (D → Parsed Value) → D → Result Value
unfolding as_object
object_value to_value document = as_object (to_value document)

-- The id of an inserted document, which must not be empty.
id_of : Result Text → Result Text
id_of (err e) = err e
id_of (ok id) =
    if is_empty id
    then err (protocol_error (codes "Insert answered with no document id"))
    else ok id

module _ {W A S T : Type 0} (env : Environment W A S T) (codec : DocumentCodec) where
  document_update : Text → Text → Fields → Call env (Unit {0})
  document_update collection id set = send_unit env (
      document_op (codes "Update") (
        text_entry (codes "collection") collection
        ∷ text_entry (codes "id") id
        ∷ entry (codes "set") (obj set)
        ∷ []))

  document_delete : Text → Text → Call env (Unit {0})
  document_delete collection id = send_unit env (
      document_op (codes "Delete")
        (text_entry (codes "collection") collection ∷ text_entry (codes "id") id ∷ []))

  document_delete_many : Text → DocumentFilter → Call env ℤ
  document_delete_many collection filter =
      send_decode env codec.deleted
        (document_op (codes "DeleteMany") (
          text_entry (codes "collection") collection
          ∷ entry (codes "filter") (filter.filter_value)
          ∷ []))
        (codes "DeleteMany")

  document_bulk_write : Text → List BulkOp → Call env BulkWriteResult
  document_bulk_write collection bulk_ops =
      send_decode env codec.bulk_result
        (document_op (codes "BulkWrite") (
          text_entry (codes "collection") collection
          ∷ entry (codes "ops") (array (map bulk_json bulk_ops))
          ∷ []))
        (codes "BulkWrite")

  -- An empty update is refused before anything is sent.
  abbrev pub nothing_to_update : Error
  nothing_to_update = invalid (codes "an update must set or increment at least one field")

  unfoldable pub update_one : Text → Text → DocumentUpdate → Bool → Call env UpdateOne
  update_one collection id update upsert =
      if is_empty_update update
      then raise nothing_to_update
      else send_decode env codec.updated_one
          (document_op (codes "UpdateOne") (
            text_entry (codes "collection") collection
            ∷ text_entry (codes "id") id
            ∷ entry (codes "update") (update_json update)
            ∷ entry (codes "upsert") (bool upsert)
            ∷ []))
          (codes "UpdateOne")

  unfoldable pub document_update_one : Text → Text → DocumentUpdate → Call env (Unit {0})
  unfolding update_one
  document_update_one collection id update = do _ ← update_one collection id update false; pure tt

  unfoldable pub document_upsert_one : Text → Text → DocumentUpdate → Call env Bool
  unfolding update_one
  document_upsert_one collection id update = do
    out ← update_one collection id update true
    pure out.inserted

  unfoldable pub document_update_many :
      Text → DocumentFilter → DocumentUpdate → Call env UpdateCounts
  document_update_many collection filter update =
      if is_empty_update update
      then raise nothing_to_update
      else send_decode env codec.update_counts
          (document_op (codes "UpdateMany") (
            text_entry (codes "collection") collection
            ∷ entry (codes "filter") filter.filter_value
            ∷ entry (codes "update") (update_json update)
            ∷ []))
          (codes "UpdateMany")

  module _ {D : Type 0} (to_value : D → Parsed Value) where
    unfoldable pub document_insert_inner : Text → Value → D → Call env Text
    unfolding object_value id_of
    document_insert_inner collection id document = do
      sent ← lift (object_value to_value document)
      r ← send env (
          document_op (codes "Insert") (
            text_entry (codes "collection") collection
            ∷ entry (codes "id") id
            ∷ entry (codes "document") sent
            ∷ []))
      lift (id_of (decode codec.inserted r (codes "Insert")))

    unfoldable pub document_insert : Text → D → Call env Text
    unfolding document_insert_inner
    document_insert collection document = document_insert_inner collection null document

    unfoldable pub document_insert_with_id : Text → Text → D → Call env Text
    unfolding document_insert_inner
    document_insert_with_id collection id document =
        document_insert_inner collection (string id) document

    unfoldable pub document_insert_many : Text → List D → Call env (List Text)
    unfolding object_value
    document_insert_many collection documents = do
      sent ← lift (collect (object_value to_value) documents)
      send_decode env codec.inserted_ids
          (document_op (codes "InsertMany") (
            text_entry (codes "collection") collection
            ∷ entry (codes "documents") (array sent)
            ∷ []))
          (codes "InsertMany")

    unfoldable pub document_replace : Text → Text → D → ReplaceOptions → Call env ReplaceResult
    unfolding object_value
    document_replace collection id document o = do
      sent ← lift (object_value to_value document)
      send_decode env codec.replace_result
          (document_op (codes "Replace") (
            text_entry (codes "collection") collection
            ∷ text_entry (codes "id") id
            ∷ entry (codes "document") sent
            ∷ entry (codes "upsert") (bool o.upsert)
            ∷ (codes "return", return_json o.return_document)
            ∷ (codes "expected_version", Option.map num o.expected_version)
            ∷ []))
          (codes "Replace")
