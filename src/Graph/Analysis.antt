-- ===== src/Graph/Analysis.antt =====
-- graph.rs: analyses of a whole graph.
use mathlib.Core.Option
use tricoredb_sdk_rust.Common.{ℕ, Bool, List, [], ◌∷◌, Option, Text, codes}
use tricoredb_sdk_rust.Environment.{Environment}
use tricoredb_sdk_rust.Json.{bool, num}
use tricoredb_sdk_rust.Json.Maps.{entry, float_value}
use tricoredb_sdk_rust.Client.{Call}
use tricoredb_sdk_rust.Client.Sending.Requests.{send_decode}
use tricoredb_sdk_rust.Graph.Kinds.{CentralityMeasure, component_json, measure_json, metric_json}
use tricoredb_sdk_rust.Graph.Settings.{
  ComponentOptions, CentralityOptions, CommunityOptions, SimilarityOptions, PageRankOptions,
}
use tricoredb_sdk_rust.Graph.Reports.{
  GraphComponents, GraphCycleCheck, GraphStats, GraphSchema, GraphScore, GraphCentrality,
  GraphCommunities, GraphTriangles, GraphConsistency, GraphPageRank,
}
use tricoredb_sdk_rust.Graph.Codec.{GraphCodec}
use tricoredb_sdk_rust.Graph.{graph_op, direction_value, text_entry, optional_text}

module _ {W A S T : Type 0} (env : Environment W A S T) (codec : GraphCodec) where
  graph_connected_components : Text → ComponentOptions → Call env GraphComponents
  graph_connected_components graph o =
      send_decode env codec.components
        (graph_op (codes "ConnectedComponents") (
          text_entry (codes "graph") graph
          ∷ (codes "kind", Option.map component_json o.kind)
          ∷ (codes "label", optional_text o.label)
          ∷ (codes "limit", Option.map num o.limit)
          ∷ []))
        (codes "ConnectedComponents")

  graph_detect_cycle : Text → Option Bool → Option Text → Call env GraphCycleCheck
  graph_detect_cycle graph directed label =
      send_decode env codec.cycle_check
        (graph_op (codes "DetectCycle") (
          text_entry (codes "graph") graph
          ∷ (codes "directed", Option.map bool directed)
          ∷ (codes "label", optional_text label)
          ∷ []))
        (codes "DetectCycle")

  graph_stats : Text → Call env GraphStats
  graph_stats graph =
      send_decode env codec.stats
        (graph_op (codes "GraphStats") (text_entry (codes "graph") graph ∷ [])) (codes "GraphStats")

  graph_schema : Text → Call env GraphSchema
  graph_schema graph =
      send_decode env codec.schema
        (graph_op (codes "GraphSchema") (text_entry (codes "graph") graph ∷ []))
        (codes "GraphSchema")

  graph_centrality : Text → CentralityMeasure → CentralityOptions → Call env GraphCentrality
  graph_centrality graph measure o =
      send_decode env codec.centrality
        (graph_op (codes "Centrality") (
          text_entry (codes "graph") graph
          ∷ entry (codes "measure") (measure_json measure)
          ∷ (codes "directed", Option.map bool o.directed)
          ∷ (codes "label", optional_text o.label)
          ∷ (codes "limit", Option.map num o.limit)
          ∷ (codes "iterations", Option.map num o.iterations)
          ∷ (codes "tolerance", Option.map float_value o.tolerance)
          ∷ []))
        (codes "Centrality")

  graph_communities : Text → CommunityOptions → Call env GraphCommunities
  graph_communities graph o =
      send_decode env codec.communities
        (graph_op (codes "Communities") (
          text_entry (codes "graph") graph
          ∷ (codes "label", optional_text o.label)
          ∷ (codes "iterations", Option.map num o.iterations)
          ∷ (codes "limit", Option.map num o.limit)
          ∷ []))
        (codes "Communities")

  graph_triangle_count : Text → Option Text → Option ℕ → Call env GraphTriangles
  graph_triangle_count graph label limit =
      send_decode env codec.triangles
        (graph_op (codes "TriangleCount") (
          text_entry (codes "graph") graph
          ∷ (codes "label", optional_text label)
          ∷ (codes "limit", Option.map num limit)
          ∷ []))
        (codes "TriangleCount")

  graph_node_similarity : Text → Text → SimilarityOptions → Call env (List GraphScore)
  graph_node_similarity graph node o =
      send_decode env codec.similar
        (graph_op (codes "NodeSimilarity") (
          text_entry (codes "graph") graph
          ∷ text_entry (codes "node") node
          ∷ (codes "direction", direction_value o.direction)
          ∷ (codes "label", optional_text o.label)
          ∷ (codes "metric", Option.map metric_json o.metric)
          ∷ (codes "limit", Option.map num o.limit)
          ∷ []))
        (codes "NodeSimilarity")

  graph_check_consistency : Text → Call env GraphConsistency
  graph_check_consistency graph =
      send_decode env codec.consistency
        (graph_op (codes "CheckConsistency") (text_entry (codes "graph") graph ∷ []))
        (codes "CheckConsistency")

  graph_page_rank : Text → PageRankOptions → Call env GraphPageRank
  graph_page_rank graph o =
      send_decode env codec.page_rank
        (graph_op (codes "PageRank") (
          text_entry (codes "graph") graph
          ∷ (codes "damping", Option.map float_value o.damping)
          ∷ (codes "iterations", Option.map num o.iterations)
          ∷ (codes "tolerance", Option.map float_value o.tolerance)
          ∷ (codes "label", optional_text o.label)
          ∷ (codes "limit", Option.map num o.limit)
          ∷ []))
        (codes "PageRank")
