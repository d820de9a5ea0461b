-- ===== src/Vector/Search.antt =====
-- vector.rs: similarity search.
use tricoredb_sdk_rust.Common.{ℕ, Bool, List, [], ◌∷◌, map, Option, Text, codes}
use tricoredb_sdk_rust.Environment.{Environment}
use tricoredb_sdk_rust.Json.{Value, Fields, bool, num, array, end}
use tricoredb_sdk_rust.Json.Maps.{entry, positive}
use tricoredb_sdk_rust.Client.{Call}
use tricoredb_sdk_rust.Client.Sending.Requests.{send_decode}
use tricoredb_sdk_rust.Vector.Kinds.{FusionMethod, fusion_json}
use tricoredb_sdk_rust.Vector.Items.{
  VectorHit, VectorSearchResult, FusedSearchResult, VectorExample,
}
use tricoredb_sdk_rust.Vector.Settings.{VectorSearchOptions}
use tricoredb_sdk_rust.Vector.Codec.{VectorCodec}
use tricoredb_sdk_rust.Vector.{vector_op, text_entry, floats, write, filter_value, example_json}

module _ {W A S T : Type 0} (env : Environment W A S T) (codec : VectorCodec) where
  vector_search_filtered : Text → List ℕ → ℕ → Fields → Call env VectorSearchResult
  vector_search_filtered collection vector top_k filter =
      send_decode env codec.search_result
        (vector_op (codes "Search") (
          text_entry (codes "collection") collection
          ∷ entry (codes "vector") (floats vector)
          ∷ entry (codes "top_k") (num top_k)
          ∷ entry (codes "filter") (filter_value filter)
          ∷ []))
        (codes "Search")

  vector_search_batch :
      Text → List (List ℕ) → ℕ → VectorSearchOptions → Call env (List (List VectorHit))
  vector_search_batch collection vectors top_k o =
      send_decode env codec.batch
        (vector_op (codes "SearchBatch") (
          text_entry (codes "collection") collection
          ∷ entry (codes "vectors") (array (map floats vectors))
          ∷ entry (codes "top_k") (num top_k)
          ∷ write o))
        (codes "SearchBatch")

  vector_search_multi :
      Text → List (List ℕ) → ℕ → FusionMethod → Option Value → Call env FusedSearchResult
  vector_search_multi collection vectors top_k fusion filter =
      send_decode env codec.fused
        (vector_op (codes "SearchMulti") (
          text_entry (codes "collection") collection
          ∷ entry (codes "vectors") (array (map floats vectors))
          ∷ entry (codes "top_k") (num top_k)
          ∷ entry (codes "fusion") (fusion_json fusion)
          ∷ (codes "filter", filter)
          ∷ []))
        (codes "SearchMulti")

  vector_search_by_examples :
      Text
      → List VectorExample
      → List VectorExample
      → ℕ
      → Bool
      → VectorSearchOptions
      → Call env VectorSearchResult
  vector_search_by_examples collection positive negative top_k exclude_examples o =
      send_decode env codec.search_result
        (vector_op (codes "SearchByExamples") (
          text_entry (codes "collection") collection
          ∷ entry (codes "positive") (array (map example_json positive))
          ∷ entry (codes "negative") (array (map example_json negative))
          ∷ entry (codes "top_k") (num top_k)
          ∷ entry (codes "exclude_examples") (bool exclude_examples)
          ∷ write o))
        (codes "SearchByExamples")

  vector_search : Text → List ℕ → ℕ → Call env VectorSearchResult
  unfolding vector_search_filtered
  vector_search collection vector top_k = vector_search_filtered collection vector top_k end
