-- ===== src/Vector/Reports.antt =====
-- vector.rs: what the server reports of a collection and its index.
use tricoredb_sdk_rust.Common.{ℕ, Bool, List, Option, Text}
use tricoredb_sdk_rust.Common.Int.{ℤ}
use tricoredb_sdk_rust.Json.{Value}
use tricoredb_sdk_rust.Vector.Kinds.{VectorMetric}

pub record VectorPartition : Type 0 where
  pub name : Text
  pub count : ℤ

pub record VectorPartitions : Type 0 where
  pub field : Text
  pub partitions : List VectorPartition
  pub unpartitioned : ℤ

pub record VectorIndexRebuild : Type 0 where
  pub rebuilt : Bool
  pub vectors : ℤ
  pub build_ms : ℤ
  pub persisted : Bool
  pub tombstones_cleared : ℤ

pub record VectorIndexStats : Type 0 where
  pub collection : Text
  pub index : Text
  pub stored : ℤ
  pub flat_scan_threshold : Option ℤ
  pub layers : Option ℤ
  pub nodes : Option ℤ
  pub live : Option ℤ
  pub tombstones : Option ℤ
  pub reachable : Option ℤ
  pub unreachable : Option ℤ
  pub should_rebuild : Option Bool
  pub persisted : Option Bool
  pub entry : Option Text
  pub live_per_layer : Option (List ℤ)
  pub degree : Option Value
  pub memory : Option Value
  pub parameters : Option Value

pub record VectorRecall : Type 0 where
  pub collection : Text
  pub index : Text
  pub measured : Bool
  pub recall : ℕ
  pub min_recall : Option ℕ
  pub queries : Option ℤ
  pub top_k : Option ℤ
  pub ef_search : Option ℤ
  pub flat_fallbacks : Option ℤ
  pub reason : Option Text

pub record NamedVector : Type 0 where
  pub name : Text
  pub dimension : ℕ
  pub metric : VectorMetric

pub record VectorConfig : Type 0 where
  pub collection : Text
  pub normalize : Bool
  pub m : ℕ
  pub ef_construction : ℕ
  pub multi_tenant : Bool
  pub named : List NamedVector
