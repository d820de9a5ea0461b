-- ===== src/Vector/Codec.antt =====
-- vector.rs: the readers that serde derives for the replies.
use tricoredb_sdk_rust.Common.{List}
use tricoredb_sdk_rust.Common.Int.{ℤ}
use tricoredb_sdk_rust.Json.{Value}
use tricoredb_sdk_rust.Response.{Parsed}
use tricoredb_sdk_rust.Vector.Items.{
  VectorItem, VectorHit, VectorSearchResult, VectorCollectionSummary, VectorCollectionInfo,
  VectorPage, Embedding, VectorAlias, FusedSearchResult,
}
use tricoredb_sdk_rust.Vector.Reports.{
  VectorPartitions, VectorIndexRebuild, VectorIndexStats, VectorRecall, VectorConfig,
}

pub record VectorCodec : Type 0 where
  pub config : Value → Parsed VectorConfig
  pub details : Value → Parsed (List VectorCollectionSummary)
  pub info : Value → Parsed VectorCollectionInfo
  pub aliases : Value → Parsed (List VectorAlias)
  pub partitions : Value → Parsed VectorPartitions
  pub moved : Value → Parsed ℤ
  pub copied : Value → Parsed ℤ
  pub rebuild : Value → Parsed VectorIndexRebuild
  pub index_stats : Value → Parsed VectorIndexStats
  pub recall_report : Value → Parsed VectorRecall
  pub item : Value → Parsed VectorItem
  pub page : Value → Parsed VectorPage
  pub embedding : Value → Parsed Embedding
  pub upserted : Value → Parsed ℤ
  pub deleted : Value → Parsed ℤ
  pub updated : Value → Parsed ℤ
  pub count : Value → Parsed ℤ
  pub search_result : Value → Parsed VectorSearchResult
  pub batch : Value → Parsed (List (List VectorHit))
  pub fused : Value → Parsed FusedSearchResult
