-- ===== src/Document/Codec.antt =====
-- document.rs: the readers that serde derives for the replies.
use tricoredb_sdk_rust.Common.{List, Text}
use tricoredb_sdk_rust.Common.Int.{ℤ}
use tricoredb_sdk_rust.Json.{Value, Fields}
use tricoredb_sdk_rust.Response.{Parsed}
use tricoredb_sdk_rust.Document.Reports.{
  DocumentIndex, DocumentStats, UpdateCounts, ReplaceResult, PurgeCounts, DocumentPlan,
  IndexRebuild, DocumentCommit, BulkWriteResult, UpdateOne,
}
use tricoredb_sdk_rust.Document.Settings.{CollectionOptions}

pub record DocumentCodec : Type 0 where
  pub inserted : Value → Parsed Text
  pub inserted_ids : Value → Parsed (List Text)
  pub updated_one : Value → Parsed UpdateOne
  pub update_counts : Value → Parsed UpdateCounts
  pub replace_result : Value → Parsed ReplaceResult
  pub documents : Value → Parsed (List Fields)
  pub transaction : Value → Parsed Text
  pub commit : Value → Parsed DocumentCommit
  pub collections : Value → Parsed (List Text)
  pub indexes : Value → Parsed (List DocumentIndex)
  pub rebuild : Value → Parsed IndexRebuild
  pub stats : Value → Parsed DocumentStats
  pub purge_counts : Value → Parsed PurgeCounts
  pub plan : Value → Parsed DocumentPlan
  pub documents_checked : Value → Parsed ℤ
  pub collection_options : Value → Parsed CollectionOptions
  pub deleted : Value → Parsed ℤ
  pub bulk_result : Value → Parsed BulkWriteResult
