-- ===== src/Document/Reports.antt =====
-- document.rs: what the server reports of collections and writes.
use tricoredb_sdk_rust.Common.{ℕ, Bool, List, Option, Text}
use tricoredb_sdk_rust.Common.Int.{ℤ}
use tricoredb_sdk_rust.Json.{Fields}

pub record DocumentIndex : Type 0 where
  pub name : Text
  pub field : Text
  pub unique : Bool

pub record DocumentStats : Type 0 where
  pub collection : Text
  pub document_count : ℤ
  pub indexed_fields : ℤ

pub record UpdateCounts : Type 0 where
  pub matched : ℤ
  pub modified : ℤ

pub record ReplaceResult : Type 0 where
  pub id : Text
  pub replaced : Bool
  pub inserted : Bool
  pub document : Option Fields

pub record PurgeCounts : Type 0 where
  pub purged : ℤ
  pub more : Bool

pub record DocumentPlan : Type 0 where
  pub plan : Text
  pub index : Option Text
  pub index_used : Bool
  pub scan_reason : Option Text
  pub scan_source : Option Text
  pub estimated_rows : ℕ
  pub estimated_cost : ℕ
  pub rows_examined : ℤ
  pub rows_returned : ℤ
  pub elapsed_us : ℤ

pub record IndexRebuild : Type 0 where
  pub index_name : Text
  pub documents : ℤ
  pub entries : ℤ

pub record DocumentCommit : Type 0 where
  pub committed : Bool
  pub writes : ℤ

pub record BulkWriteResult : Type 0 where
  pub inserted : ℤ
  pub updated : ℤ
  pub upserted : ℤ
  pub replaced : ℤ
  pub deleted : ℤ
  pub inserted_ids : List Text

pub record UpdateOne : Type 0 where
  pub updated : Bool
  pub inserted : Bool
