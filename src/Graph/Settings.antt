-- ===== src/Graph/Settings.antt =====
-- graph.rs: what a caller may set of an operation, and what it sends in one.
use tricoredb_sdk_rust.Common.{ℕ, Bool, List, Option, Text}
use tricoredb_sdk_rust.Json.{Value, Fields}
use tricoredb_sdk_rust.Graph.Kinds.{GraphDirection, ComponentKind, SimilarityMetric}

pub record NeighborOptions : Type 0 where
  pub direction : Option GraphDirection
  pub label : Option Text
  pub limit : Option ℕ

pub record TraverseOptions : Type 0 where
  pub direction : Option GraphDirection
  pub label : Option Text
  pub max_depth : Option ℕ
  pub limit : Option ℕ

pub record PathOptions : Type 0 where
  pub direction : Option GraphDirection
  pub label : Option Text
  pub max_depth : Option ℕ

pub record WeightedPathOptions : Type 0 where
  pub direction : Option GraphDirection
  pub label : Option Text
  pub weight_property : Option Text

pub record GraphNodeInput : Type 0 where
  pub id : Text
  pub labels : List Text
  pub properties : Option Fields

pub record GraphEdgeInput : Type 0 where
  pub id : Text
  pub from : Text
  pub to : Text
  pub label : Text
  pub properties : Option Fields

pub record NodeUpdate : Type 0 where
  pub properties : Option Value
  pub add_labels : List Text
  pub remove_labels : List Text

pub record ComponentOptions : Type 0 where
  pub kind : Option ComponentKind
  pub label : Option Text
  pub limit : Option ℕ

pub record KPathOptions : Type 0 where
  pub k : Option ℕ
  pub direction : Option GraphDirection
  pub label : Option Text
  pub weight_property : Option Text

pub record CentralityOptions : Type 0 where
  pub directed : Option Bool
  pub label : Option Text
  pub limit : Option ℕ
  pub iterations : Option ℕ
  pub tolerance : Option ℕ

pub record CommunityOptions : Type 0 where
  pub label : Option Text
  pub iterations : Option ℕ
  pub limit : Option ℕ

pub record SimilarityOptions : Type 0 where
  pub direction : Option GraphDirection
  pub label : Option Text
  pub metric : Option SimilarityMetric
  pub limit : Option ℕ

pub record PageRankOptions : Type 0 where
  pub damping : Option ℕ
  pub iterations : Option ℕ
  pub tolerance : Option ℕ
  pub label : Option Text
  pub limit : Option ℕ
