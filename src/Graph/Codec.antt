-- ===== src/Graph/Codec.antt =====
-- graph.rs: the readers that serde derives for the replies.
use tricoredb_sdk_rust.Common.{List, Text}
use tricoredb_sdk_rust.Common.Int.{ℤ}
use tricoredb_sdk_rust.Json.{Value}
use tricoredb_sdk_rust.Response.{Parsed}
use tricoredb_sdk_rust.Graph.Elements.{
  GraphNode, GraphEdge, GraphNeighbor, GraphTraversal, GraphPath, GraphNodePage, GraphEdgePage,
  GraphRows, GraphCounts, GraphRemoved, GraphWriteSummary,
}
use tricoredb_sdk_rust.Graph.Reports.{
  GraphComponents, GraphCycleCheck, GraphStats, GraphSubgraph, GraphSchema, GraphPaths, GraphScore,
  GraphCentrality, GraphCommunities, GraphTriangles, GraphConsistency, GraphSchemaObjects,
  GraphFoundNodes, GraphPageRank,
}

pub record GraphCodec : Type 0 where
  pub graphs : Value → Parsed (List Text)
  pub counts : Value → Parsed GraphCounts
  pub node : Value → Parsed GraphNode
  pub node_page : Value → Parsed GraphNodePage
  pub edge : Value → Parsed GraphEdge
  pub edge_page : Value → Parsed GraphEdgePage
  pub removed : Value → Parsed GraphRemoved
  pub neighbors : Value → Parsed (List GraphNeighbor)
  pub degree : Value → Parsed ℤ
  pub traversal : Value → Parsed GraphTraversal
  pub path : Value → Parsed GraphPath
  pub subgraph : Value → Parsed GraphSubgraph
  pub paths : Value → Parsed GraphPaths
  pub components : Value → Parsed GraphComponents
  pub cycle_check : Value → Parsed GraphCycleCheck
  pub stats : Value → Parsed GraphStats
  pub schema : Value → Parsed GraphSchema
  pub centrality : Value → Parsed GraphCentrality
  pub communities : Value → Parsed GraphCommunities
  pub triangles : Value → Parsed GraphTriangles
  pub similar : Value → Parsed (List GraphScore)
  pub consistency : Value → Parsed GraphConsistency
  pub page_rank : Value → Parsed GraphPageRank
  pub schema_objects : Value → Parsed GraphSchemaObjects
  pub found_nodes : Value → Parsed GraphFoundNodes
  pub rows : Value → Parsed GraphRows
  pub summary : Value → Parsed GraphWriteSummary
  pub transaction : Value → Parsed Text
  pub rolled_back : Value → Parsed ℤ
