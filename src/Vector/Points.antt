-- ===== src/Vector/Points.antt =====
-- vector.rs: the operations on stored vectors.
use tricoredb_sdk_rust.Common.{ℕ, List, [], ◌∷◌, map, Option, Text, codes}
use tricoredb_sdk_rust.Common.Int.{ℤ}
use tricoredb_sdk_rust.Environment.{Environment}
use tricoredb_sdk_rust.Json.{Value, Fields, num, array, obj}
use tricoredb_sdk_rust.Json.Maps.{entry, or_null, positive, texts, object}
use tricoredb_sdk_rust.Client.{Call}
use tricoredb_sdk_rust.Client.Sending.Requests.{send_decode, send_unit, send_nullable}
use tricoredb_sdk_rust.Vector.Items.{VectorItem, VectorPage, Embedding, VectorUpsert, TextUpsert}
use tricoredb_sdk_rust.Vector.Codec.{VectorCodec}
use tricoredb_sdk_rust.Vector.{
  vector_op, text_entry, floats, vector_upsert_json, text_upsert_json, named_vector,
}

module _ {W A S T : Type 0} (env : Environment W A S T) (codec : VectorCodec) where
  vector_upsert : Text → Text → List ℕ → Option Fields → Call env (Unit {0})
  vector_upsert collection id vector metadata = send_unit env (
      vector_op (codes "Upsert") (
        text_entry (codes "collection") collection
        ∷ text_entry (codes "id") id
        ∷ entry (codes "vector") (floats vector)
        ∷ entry (codes "metadata") (or_null obj metadata)
        ∷ []))

  unfoldable pub vector_get : Text → Text → Call env (Option VectorItem)
  vector_get collection id =
      send_nullable env codec.item
        (vector_op (codes "Get")
          (text_entry (codes "collection") collection ∷ text_entry (codes "id") id ∷ []))
        (codes "Get")

  vector_delete : Text → Text → Call env (Unit {0})
  vector_delete collection id = send_unit env (
      vector_op (codes "Delete")
        (text_entry (codes "collection") collection ∷ text_entry (codes "id") id ∷ []))

  vector_list_vectors : Text → Option ℕ → Option ℕ → Call env VectorPage
  vector_list_vectors collection limit offset =
      send_decode env codec.page
        (vector_op (codes "ListVectors") (
          text_entry (codes "collection") collection
          ∷ (codes "limit", positive limit)
          ∷ (codes "offset", positive offset)
          ∷ []))
        (codes "ListVectors")

  vector_embed : List Text → ℕ → Call env Embedding
  vector_embed inputs dimension =
      send_decode env codec.embedding
        (vector_op (codes "Embed")
          (entry (codes "texts") (texts inputs) ∷ entry (codes "dimension") (num dimension) ∷ []))
        (codes "Embed")

  vector_upsert_text : Text → List TextUpsert → Call env ℤ
  vector_upsert_text collection items =
      send_decode env codec.upserted
        (vector_op (codes "UpsertText") (
          text_entry (codes "collection") collection
          ∷ entry (codes "items") (array (map text_upsert_json items))
          ∷ []))
        (codes "UpsertText")

  vector_upsert_named : Text → Text → List (Text × List ℕ) → Option Fields → Call env (Unit {0})
  vector_upsert_named collection id vectors metadata = send_unit env (
      vector_op (codes "UpsertNamed") (
        text_entry (codes "collection") collection
        ∷ text_entry (codes "id") id
        ∷ entry (codes "vectors") (object (map named_vector vectors))
        ∷ entry (codes "metadata") (or_null obj metadata)
        ∷ []))

  vector_upsert_many : Text → List VectorUpsert → Call env ℤ
  vector_upsert_many collection items =
      send_decode env codec.upserted
        (vector_op (codes "UpsertMany") (
          text_entry (codes "collection") collection
          ∷ entry (codes "items") (array (map vector_upsert_json items))
          ∷ []))
        (codes "UpsertMany")

  vector_delete_many : Text → List Text → Call env ℤ
  vector_delete_many collection ids =
      send_decode env codec.deleted
        (vector_op (codes "DeleteMany")
          (text_entry (codes "collection") collection ∷ entry (codes "ids") (texts ids) ∷ []))
        (codes "DeleteMany")

  vector_delete_by_filter : Text → Value → Call env ℤ
  vector_delete_by_filter collection filter =
      send_decode env codec.deleted
        (vector_op (codes "DeleteByFilter")
          (text_entry (codes "collection") collection ∷ entry (codes "filter") (filter) ∷ []))
        (codes "DeleteByFilter")

  vector_update_by_filter : Text → Value → Fields → Call env ℤ
  vector_update_by_filter collection filter set =
      send_decode env codec.updated
        (vector_op (codes "UpdateByFilter") (
          text_entry (codes "collection") collection
          ∷ entry (codes "filter") (filter)
          ∷ entry (codes "set") (obj set)
          ∷ []))
        (codes "UpdateByFilter")

  vector_count : Text → Option Value → Call env ℤ
  vector_count collection filter =
      send_decode env codec.count
        (vector_op (codes "Count")
          (text_entry (codes "collection") collection ∷ (codes "filter", filter) ∷ []))
        (codes "Count")
