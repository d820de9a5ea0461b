-- ===== src/Vector/Settings.antt =====
-- vector.rs: what a caller may set of an operation.
use tricoredb_sdk_rust.Common.{ℕ, Bool, Option, Text}
use tricoredb_sdk_rust.Json.{Value}
use tricoredb_sdk_rust.Vector.Kinds.{ScoreMetric, FilterStrategy, AnnIndex}
use tricoredb_sdk_rust.Vector.Items.{SparseVector}

pub record VectorSearchOptions : Type 0 where
  pub filter : Option Value
  pub min_score : Option ℕ
  pub include_vectors : Bool
  pub offset : Option ℕ
  pub include_metadata : Option Bool
  pub max_distance : Option ℕ
  pub ef_search : Option ℕ
  pub exact : Bool
  pub score_metric : Option ScoreMetric
  pub filter_strategy : Option FilterStrategy
  pub using : Option Text
  pub tenant : Option Text
  pub namespace : Option Text
  pub sparse : Option SparseVector
  pub hybrid_alpha : Option ℕ
  pub explain : Bool
  pub score_expr : Option Text
  pub explain_text : Option Text
  pub ann : Option AnnIndex
  pub nprobe : Option ℕ

pub record RecallOptions : Type 0 where
  pub sample : Option ℕ
  pub top_k : Option ℕ
  pub ef_search : Option ℕ

pub record VectorConfigChange : Type 0 where
  pub normalize : Option Bool
  pub m : Option ℕ
  pub ef_construction : Option ℕ
  pub multi_tenant : Option Bool
