-- ===== src/Graph/Walks.antt =====
-- graph.rs: neighbours, walks and paths.
pub mod Bounds
use mathlib.Core.Option
use tricoredb_sdk_rust.Act.{Act, lift, ◌>>=◌}
use tricoredb_sdk_rust.Common.{ℕ, Bool, List, [], ◌∷◌, map, Option, Text, codes}
use tricoredb_sdk_rust.Common.Int.{ℤ}
use tricoredb_sdk_rust.Environment.{Environment}
use tricoredb_sdk_rust.Json.{Value, Fields, string, bool, num, array, obj}
use tricoredb_sdk_rust.Json.Maps.{entry, or_null, positive, texts, float_value}
use tricoredb_sdk_rust.Response.{decode}
use tricoredb_sdk_rust.Client.{Call}
use tricoredb_sdk_rust.Client.Sending.Requests.{
  send_decode, send_unit, send_nullable, send_begin, send_ending,
}
use tricoredb_sdk_rust.Graph.Kinds.{
  GraphDirection, ComponentKind, ConstraintKind, ConstraintTarget, CentralityMeasure,
  component_json, constraint_json, target_json, measure_json, metric_json,
}
use tricoredb_sdk_rust.Graph.Settings.{
  NeighborOptions, TraverseOptions, PathOptions, WeightedPathOptions, GraphNodeInput,
  GraphEdgeInput, NodeUpdate, ComponentOptions, KPathOptions, CentralityOptions, CommunityOptions,
  SimilarityOptions, PageRankOptions,
}
use tricoredb_sdk_rust.Graph.Elements.{
  GraphNode, GraphEdge, GraphNeighbor, GraphTraversal, GraphPath, GraphNodePage, GraphEdgePage,
  GraphRows, GraphCounts, GraphRemoved, GraphWriteSummary,
}
use tricoredb_sdk_rust.Graph.Reports.{
  GraphComponents, GraphCycleCheck, GraphStats, GraphSubgraph, GraphSchema, GraphPaths, GraphScore,
  GraphCentrality, GraphCommunities, GraphTriangles, GraphConsistency, GraphSchemaObjects,
  GraphFoundNodes, GraphPageRank,
}
use tricoredb_sdk_rust.Graph.Codec.{GraphCodec}
use tricoredb_sdk_rust.Graph.{
  op, graph_op, direction_value, text_entry, optional_text, put_walk, unless_empty, node_json,
  edge_json,
}

module _ {W A S T : Type 0} (env : Environment W A S T) (codec : GraphCodec) where
  pub graph_neighbors : Text → Text → NeighborOptions → Call env (List GraphNeighbor)
  graph_neighbors graph node_id o =
      send_decode env codec.neighbors
        (graph_op (codes "Neighbors") (
          text_entry (codes "graph") graph
          ∷ text_entry (codes "node_id") node_id
          ∷ (codes "direction", direction_value o.direction)
          ∷ (codes "label", optional_text o.label)
          ∷ (codes "limit", positive o.limit)
          ∷ []))
        (codes "Neighbors")

  graph_degree : Text → Text → Option GraphDirection → Call env ℤ
  graph_degree graph node_id direction =
      send_decode env codec.degree
        (graph_op (codes "Degree") (
          text_entry (codes "graph") graph
          ∷ text_entry (codes "node_id") node_id
          ∷ (codes "direction", direction_value direction)
          ∷ []))
        (codes "Degree")

  pub graph_traverse : Text → Text → TraverseOptions → Call env GraphTraversal
  graph_traverse graph start o =
      send_decode env codec.traversal
        (graph_op (codes "Traverse") (
          text_entry (codes "graph") graph
          ∷ text_entry (codes "start") start
          ∷ (codes "direction", direction_value o.direction)
          ∷ (codes "label", optional_text o.label)
          ∷ (codes "max_depth", positive o.max_depth)
          ∷ (codes "limit", positive o.limit)
          ∷ []))
        (codes "Traverse")

  pub graph_shortest_path : Text → Text → Text → PathOptions → Call env GraphPath
  graph_shortest_path graph from to o =
      send_decode env codec.path
        (graph_op (codes "ShortestPath") (
          text_entry (codes "graph") graph
          ∷ text_entry (codes "from") from
          ∷ text_entry (codes "to") to
          ∷ (codes "direction", direction_value o.direction)
          ∷ (codes "label", optional_text o.label)
          ∷ (codes "max_depth", positive o.max_depth)
          ∷ []))
        (codes "ShortestPath")

  graph_weighted_shortest_path : Text → Text → Text → WeightedPathOptions → Call env GraphPath
  graph_weighted_shortest_path graph from to o =
      send_decode env codec.path
        (graph_op (codes "WeightedShortestPath") (
          text_entry (codes "graph") graph
          ∷ text_entry (codes "from") from
          ∷ text_entry (codes "to") to
          ∷ (codes "direction", direction_value o.direction)
          ∷ (codes "label", optional_text o.label)
          ∷ (codes "weight_property", optional_text o.weight_property)
          ∷ []))
        (codes "WeightedShortestPath")

  pub graph_dfs : Text → Text → TraverseOptions → Call env GraphTraversal
  graph_dfs graph start o =
      send_decode env codec.traversal
        (graph_op (codes "Dfs")
          (text_entry (codes "graph") graph ∷ text_entry (codes "start") start ∷ put_walk o))
        (codes "Dfs")

  pub graph_subgraph : Text → List Text → TraverseOptions → Call env GraphSubgraph
  graph_subgraph graph seeds o =
      send_decode env codec.subgraph
        (graph_op (codes "Subgraph")
          (text_entry (codes "graph") graph ∷ entry (codes "seeds") (texts seeds) ∷ put_walk o))
        (codes "Subgraph")

  pub graph_k_shortest_paths : Text → Text → Text → KPathOptions → Call env GraphPaths
  graph_k_shortest_paths graph from to o =
      send_decode env codec.paths
        (graph_op (codes "KShortestPaths") (
          text_entry (codes "graph") graph
          ∷ text_entry (codes "from") from
          ∷ text_entry (codes "to") to
          ∷ (codes "k", positive o.k)
          ∷ (codes "direction", direction_value o.direction)
          ∷ (codes "label", optional_text o.label)
          ∷ (codes "weight_property", optional_text o.weight_property)
          ∷ []))
        (codes "KShortestPaths")

  pub graph_all_paths : Text → Text → Text → TraverseOptions → Call env GraphPaths
  graph_all_paths graph from to o =
      send_decode env codec.paths
        (graph_op (codes "AllPaths") (
          text_entry (codes "graph") graph
          ∷ text_entry (codes "from") from
          ∷ text_entry (codes "to") to
          ∷ put_walk o))
        (codes "AllPaths")
