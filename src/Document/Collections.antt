-- ===== src/Document/Collections.antt =====
-- document.rs: the operations on collections and their indexes.
use mathlib.Core.Option
use tricoredb_sdk_rust.Common.{
  Bool, List, [], ◌∷◌, map, none, some, Text, codes, is_empty, if◌then◌else◌,
}
use tricoredb_sdk_rust.Common.Int.{ℤ}
use tricoredb_sdk_rust.Environment.{Environment}
use tricoredb_sdk_rust.Json.{string, bool, num, array}
use tricoredb_sdk_rust.Json.Maps.{entry}
use tricoredb_sdk_rust.Client.{Call}
use tricoredb_sdk_rust.Client.Sending.Requests.{send_decode, send_unit}
use tricoredb_sdk_rust.Document.Stages.{DocumentFilter, sort_key_json}
use tricoredb_sdk_rust.Document.Reports.{
  DocumentIndex, DocumentStats, PurgeCounts, DocumentPlan, IndexRebuild,
}
use tricoredb_sdk_rust.Document.Settings.{
  ExplainOptions, CollectionOptions, collection_options_json,
}
use tricoredb_sdk_rust.Document.Codec.{DocumentCodec}
use tricoredb_sdk_rust.Document.{op, document_op, text_entry}

module _ {W A S T : Type 0} (env : Environment W A S T) (codec : DocumentCodec) where
  document_create_collection : Text → Call env (Unit {0})
  document_create_collection collection =
      send_unit env
        (document_op (codes "CreateCollection") (text_entry (codes "collection") collection ∷ []))

  document_drop_collection : Text → Call env (Unit {0})
  document_drop_collection collection =
      send_unit env
        (document_op (codes "DropCollection") (text_entry (codes "collection") collection ∷ []))

  document_list_collections : Call env (List Text)
  document_list_collections =
      send_decode env codec.collections (op (string (codes "ListCollections")))
        (codes "ListCollections")

  document_rename_collection : Text → Text → Call env (Unit {0})
  document_rename_collection collection to = send_unit env (
      document_op (codes "RenameCollection")
        (text_entry (codes "collection") collection ∷ text_entry (codes "to") to ∷ []))

  document_create_index : Text → Text → Text → Bool → Call env (Unit {0})
  document_create_index collection index_name path unique = send_unit env (
      document_op (codes "CreateIndex") (
        text_entry (codes "collection") collection
        ∷ text_entry (codes "index_name") index_name
        ∷ entry (codes "field") (string path)
        ∷ entry (codes "unique") (bool unique)
        ∷ []))

  document_drop_index : Text → Text → Call env (Unit {0})
  document_drop_index collection index_name = send_unit env (
      document_op (codes "DropIndex") (
        text_entry (codes "collection") collection
        ∷ text_entry (codes "index_name") index_name
        ∷ []))

  document_list_indexes : Text → Call env (List DocumentIndex)
  document_list_indexes collection =
      send_decode env codec.indexes
        (document_op (codes "ListIndexes") (text_entry (codes "collection") collection ∷ []))
        (codes "ListIndexes")

  document_rebuild_index : Text → Text → Call env IndexRebuild
  document_rebuild_index collection index_name =
      send_decode env codec.rebuild
        (document_op (codes "RebuildIndex") (
          text_entry (codes "collection") collection
          ∷ text_entry (codes "index_name") index_name
          ∷ []))
        (codes "RebuildIndex")

  document_analyze : Text → Call env DocumentStats
  document_analyze collection =
      send_decode env codec.stats
        (document_op (codes "Analyze") (text_entry (codes "collection") collection ∷ []))
        (codes "Analyze")

  document_purge_expired : Text → Call env PurgeCounts
  document_purge_expired collection =
      send_decode env codec.purge_counts
        (document_op (codes "PurgeExpired") (text_entry (codes "collection") collection ∷ []))
        (codes "PurgeExpired")

  document_explain : Text → DocumentFilter → ExplainOptions → Call env DocumentPlan
  document_explain collection filter o =
      send_decode env codec.plan
        (document_op (codes "Explain") (
          text_entry (codes "collection") collection
          ∷ entry (codes "filter") (filter.filter_value)
          ∷ (codes "limit", Option.map num o.limit)
          ∷ (
            codes "sort",
            if is_empty o.sort then none else some (array (map sort_key_json o.sort)),
          )
          ∷ (codes "skip", Option.map num o.skip)
          ∷ []))
        (codes "Explain")

  document_set_collection_options : Text → CollectionOptions → Call env ℤ
  document_set_collection_options collection o =
      send_decode env codec.documents_checked
        (document_op (codes "SetCollectionOptions") (
          text_entry (codes "collection") collection
          ∷ entry (codes "options") (collection_options_json o)
          ∷ []))
        (codes "SetCollectionOptions")

  document_get_collection_options : Text → Call env CollectionOptions
  document_get_collection_options collection =
      send_decode env codec.collection_options
        (document_op (codes "GetCollectionOptions")
          (text_entry (codes "collection") collection ∷ []))
        (codes "GetCollectionOptions")
