-- ===== src/Vector/Kinds.antt =====
-- vector.rs: the enumerations, and how serde spells them: `lowercase` or `snake_case`.
use tricoredb_sdk_rust.Common.{codes}
use tricoredb_sdk_rust.Json.{Value, string}

pub data VectorMetric : Type 0 where
  cosine dot l2 : VectorMetric

pub data VectorQuantization : Type 0 where
  none int8 : VectorQuantization

pub data ScoreMetric : Type 0 where
  cosine dot l2 l1 linf : ScoreMetric

pub data FilterStrategy : Type 0 where
  auto graph exact : FilterStrategy

pub data AnnIndex : Type 0 where
  hnsw ivf ivf_pq : AnnIndex

pub data FusionMethod : Type 0 where
  rrf max mean : FusionMethod

pub metric_json : VectorMetric → Value
metric_json VectorMetric.cosine = string (codes "cosine")
metric_json VectorMetric.dot = string (codes "dot")
metric_json VectorMetric.l2 = string (codes "l2")

pub quantization_json : VectorQuantization → Value
quantization_json VectorQuantization.none = string (codes "none")
quantization_json VectorQuantization.int8 = string (codes "int8")

pub score_metric_json : ScoreMetric → Value
score_metric_json ScoreMetric.cosine = string (codes "cosine")
score_metric_json ScoreMetric.dot = string (codes "dot")
score_metric_json ScoreMetric.l2 = string (codes "l2")
score_metric_json ScoreMetric.l1 = string (codes "l1")
score_metric_json ScoreMetric.linf = string (codes "linf")

pub strategy_json : FilterStrategy → Value
strategy_json FilterStrategy.auto = string (codes "auto")
strategy_json FilterStrategy.graph = string (codes "graph")
strategy_json FilterStrategy.exact = string (codes "exact")

pub ann_json : AnnIndex → Value
ann_json AnnIndex.hnsw = string (codes "hnsw")
ann_json AnnIndex.ivf = string (codes "ivf")
ann_json AnnIndex.ivf_pq = string (codes "ivf_pq")

pub fusion_json : FusionMethod → Value
fusion_json FusionMethod.rrf = string (codes "rrf")
fusion_json FusionMethod.max = string (codes "max")
fusion_json FusionMethod.mean = string (codes "mean")
