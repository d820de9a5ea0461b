-- ===== src/Graph/Kinds.antt =====
-- graph.rs: the enumerations, and how serde spells them.
use tricoredb_sdk_rust.Common.{codes}
use tricoredb_sdk_rust.Json.{Value, string}

pub data GraphDirection : Type 0 where
  outgoing incoming both : GraphDirection

pub data ComponentKind : Type 0 where
  weak strong : ComponentKind

pub data ConstraintKind : Type 0 where
  unique required : ConstraintKind

pub data ConstraintTarget : Type 0 where
  node edge : ConstraintTarget

pub data CentralityMeasure : Type 0 where
  betweenness closeness eigenvector : CentralityMeasure

pub data SimilarityMetric : Type 0 where
  jaccard overlap : SimilarityMetric

-- `rename_all = "lowercase"`.
pub direction_json : GraphDirection → Value
direction_json GraphDirection.outgoing = string (codes "outgoing")
direction_json GraphDirection.incoming = string (codes "incoming")
direction_json GraphDirection.both = string (codes "both")

-- `rename_all = "snake_case"`, here and below.
pub component_json : ComponentKind → Value
component_json ComponentKind.weak = string (codes "weak")
component_json ComponentKind.strong = string (codes "strong")

pub constraint_json : ConstraintKind → Value
constraint_json ConstraintKind.unique = string (codes "unique")
constraint_json ConstraintKind.required = string (codes "required")

pub target_json : ConstraintTarget → Value
target_json ConstraintTarget.node = string (codes "node")
target_json ConstraintTarget.edge = string (codes "edge")

pub measure_json : CentralityMeasure → Value
measure_json CentralityMeasure.betweenness = string (codes "betweenness")
measure_json CentralityMeasure.closeness = string (codes "closeness")
measure_json CentralityMeasure.eigenvector = string (codes "eigenvector")

pub metric_json : SimilarityMetric → Value
metric_json SimilarityMetric.jaccard = string (codes "jaccard")
metric_json SimilarityMetric.overlap = string (codes "overlap")
