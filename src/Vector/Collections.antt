-- ===== src/Vector/Collections.antt =====
-- vector.rs: the operations on collections and their indexes.
use mathlib.Core.Option
use tricoredb_sdk_rust.Act.{raise}
use tricoredb_sdk_rust.Common.{ℕ, List, [], ◌∷◌, Option, Text, codes, if◌then◌else◌}
use tricoredb_sdk_rust.Common.Int.{ℤ}
use tricoredb_sdk_rust.Environment.{Environment}
use tricoredb_sdk_rust.Failure.{invalid}
use tricoredb_sdk_rust.Json.{string, bool, num}
use tricoredb_sdk_rust.Json.Maps.{entry, or_null}
use tricoredb_sdk_rust.Client.{Call}
use tricoredb_sdk_rust.Client.Sending.Requests.{send_decode, send_unit}
use tricoredb_sdk_rust.Vector.Kinds.{
  VectorMetric, VectorQuantization, metric_json, quantization_json,
}
use tricoredb_sdk_rust.Vector.Items.{VectorCollectionSummary, VectorCollectionInfo, VectorAlias}
use tricoredb_sdk_rust.Vector.Reports.{
  VectorPartitions, VectorIndexRebuild, VectorIndexStats, VectorRecall, VectorConfig,
}
use tricoredb_sdk_rust.Vector.Settings.{RecallOptions, VectorConfigChange}
use tricoredb_sdk_rust.Vector.Codec.{VectorCodec}
use tricoredb_sdk_rust.Vector.{op, vector_op, text_entry, optional_text, sets_nothing}

module _ {W A S T : Type 0} (env : Environment W A S T) (codec : VectorCodec) where
  vector_create_collection_quantized :
      Text → ℕ → VectorMetric → VectorQuantization → Call env (Unit {0})
  vector_create_collection_quantized collection dimension metric quantization = send_unit env (
      vector_op (codes "CreateCollection") (
        text_entry (codes "collection") collection
        ∷ entry (codes "dimension") (num dimension)
        ∷ entry (codes "metric") (metric_json metric)
        ∷ entry (codes "quantization") (quantization_json quantization)
        ∷ []))

  vector_drop_collection : Text → Call env (Unit {0})
  vector_drop_collection collection =
      send_unit env
        (vector_op (codes "DropCollection") (text_entry (codes "collection") collection ∷ []))

  vector_list_collections : Call env (List VectorCollectionSummary)
  vector_list_collections =
      send_decode env codec.details (op (string (codes "ListCollections")))
        (codes "ListCollections")

  vector_describe_collection : Text → Call env VectorCollectionInfo
  vector_describe_collection collection =
      send_decode env codec.info
        (vector_op (codes "DescribeCollection") (text_entry (codes "collection") collection ∷ []))
        (codes "DescribeCollection")

  vector_set_alias : Text → Option Text → Call env (Unit {0})
  vector_set_alias alias collection = send_unit env (
      vector_op (codes "SetAlias") (
        text_entry (codes "alias") alias
        ∷ entry (codes "collection") (or_null string collection)
        ∷ []))

  vector_list_aliases : Call env (List VectorAlias)
  vector_list_aliases =
      send_decode env codec.aliases (op (string (codes "ListAliases"))) (codes "ListAliases")

  vector_add_named_vector : Text → Text → ℕ → VectorMetric → Call env (Unit {0})
  vector_add_named_vector collection name dimension metric = send_unit env (
      vector_op (codes "AddNamedVector") (
        text_entry (codes "collection") collection
        ∷ text_entry (codes "name") name
        ∷ entry (codes "dimension") (num dimension)
        ∷ entry (codes "metric") (metric_json metric)
        ∷ []))

  vector_list_partitions : Text → Option Text → Call env VectorPartitions
  vector_list_partitions collection field =
      send_decode env codec.partitions
        (vector_op (codes "ListPartitions")
          (text_entry (codes "collection") collection ∷ (codes "field", optional_text field) ∷ []))
        (codes "ListPartitions")

  vector_rename_collection : Text → Text → Call env ℤ
  vector_rename_collection collection to =
      send_decode env codec.moved
        (vector_op (codes "RenameCollection")
          (text_entry (codes "collection") collection ∷ text_entry (codes "to") to ∷ []))
        (codes "RenameCollection")

  vector_copy_collection : Text → Text → Call env ℤ
  vector_copy_collection collection to =
      send_decode env codec.copied
        (vector_op (codes "CopyCollection")
          (text_entry (codes "collection") collection ∷ text_entry (codes "to") to ∷ []))
        (codes "CopyCollection")

  vector_rebuild_index : Text → Call env VectorIndexRebuild
  vector_rebuild_index collection =
      send_decode env codec.rebuild
        (vector_op (codes "RebuildIndex") (text_entry (codes "collection") collection ∷ []))
        (codes "RebuildIndex")

  vector_index_stats : Text → Call env VectorIndexStats
  vector_index_stats collection =
      send_decode env codec.index_stats
        (vector_op (codes "IndexStats") (text_entry (codes "collection") collection ∷ []))
        (codes "IndexStats")

  vector_measure_recall : Text → RecallOptions → Call env VectorRecall
  vector_measure_recall collection o =
      send_decode env codec.recall_report
        (vector_op (codes "MeasureRecall") (
          text_entry (codes "collection") collection
          ∷ (codes "sample", Option.map num o.sample)
          ∷ (codes "top_k", Option.map num o.top_k)
          ∷ (codes "ef_search", Option.map num o.ef_search)
          ∷ []))
        (codes "MeasureRecall")

  vector_create_collection : Text → ℕ → VectorMetric → Call env (Unit {0})
  unfolding vector_create_collection_quantized
  vector_create_collection collection dimension metric =
      vector_create_collection_quantized collection dimension metric VectorQuantization.none

  unfoldable pub vector_set_collection_config : Text → VectorConfigChange → Call env VectorConfig
  vector_set_collection_config collection change =
      if sets_nothing change
      then raise (
          invalid (
            codes
              "a configuration change must set at least one of `normalize`, `m`, `ef_construction` or `multi_tenant`"))
      else send_decode env codec.config
          (vector_op (codes "SetCollectionConfig") (
            text_entry (codes "collection") collection
            ∷ (codes "normalize", Option.map bool change.normalize)
            ∷ (codes "m", Option.map num change.m)
            ∷ (codes "ef_construction", Option.map num change.ef_construction)
            ∷ (codes "multi_tenant", Option.map bool change.multi_tenant)
            ∷ []))
          (codes "SetCollectionConfig")
