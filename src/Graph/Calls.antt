-- ===== src/Graph/Calls.antt =====
-- graph.rs: the operations on graphs, nodes and edges.
use tricoredb_sdk_rust.Common.{ℕ, Bool, List, [], ◌∷◌, map, Option, Text, codes}
use tricoredb_sdk_rust.Environment.{Environment}
use tricoredb_sdk_rust.Json.{Value, Fields, string, bool, array, obj}
use tricoredb_sdk_rust.Json.Maps.{entry, or_null, positive, texts}
use tricoredb_sdk_rust.Client.{Call}
use tricoredb_sdk_rust.Client.Sending.Requests.{send_decode, send_unit, send_nullable}
use tricoredb_sdk_rust.Graph.Settings.{GraphNodeInput, GraphEdgeInput, NodeUpdate}
use tricoredb_sdk_rust.Graph.Elements.{
  GraphNode, GraphEdge, GraphNodePage, GraphEdgePage, GraphCounts, GraphRemoved,
}
use tricoredb_sdk_rust.Graph.Codec.{GraphCodec}
use tricoredb_sdk_rust.Graph.{
  op, graph_op, text_entry, optional_text, unless_empty, node_json, edge_json,
}

module _ {W A S T : Type 0} (env : Environment W A S T) (codec : GraphCodec) where
  graph_create : Text → Call env (Unit {0})
  graph_create graph =
      send_unit env (graph_op (codes "CreateGraph") (text_entry (codes "graph") graph ∷ []))

  graph_drop : Text → Call env (Unit {0})
  graph_drop graph =
      send_unit env (graph_op (codes "DropGraph") (text_entry (codes "graph") graph ∷ []))

  graph_list : Call env (List Text)
  graph_list = send_decode env codec.graphs (op (string (codes "ListGraphs"))) (codes "ListGraphs")

  graph_copy : Text → Text → Call env GraphCounts
  graph_copy graph to =
      send_decode env codec.counts
        (graph_op (codes "CopyGraph")
          (text_entry (codes "graph") graph ∷ text_entry (codes "to") to ∷ []))
        (codes "CopyGraph")

  graph_add_node : Text → Text → List Text → Option Fields → Call env (Unit {0})
  graph_add_node graph id labels properties = send_unit env (
      graph_op (codes "AddNode") (
        text_entry (codes "graph") graph
        ∷ text_entry (codes "id") id
        ∷ entry (codes "labels") (texts labels)
        ∷ entry (codes "properties") (or_null obj properties)
        ∷ []))

  unfoldable pub graph_get_node : Text → Text → Call env (Option GraphNode)
  graph_get_node graph id =
      send_nullable env codec.node
        (graph_op (codes "GetNode")
          (text_entry (codes "graph") graph ∷ text_entry (codes "id") id ∷ []))
        (codes "GetNode")

  graph_delete_node : Text → Text → Call env (Unit {0})
  graph_delete_node graph id = send_unit env (
      graph_op (codes "DeleteNode")
        (text_entry (codes "graph") graph ∷ text_entry (codes "id") id ∷ []))

  graph_list_nodes : Text → Option ℕ → Option ℕ → Call env GraphNodePage
  graph_list_nodes graph limit offset =
      send_decode env codec.node_page
        (graph_op (codes "ListNodes") (
          text_entry (codes "graph") graph
          ∷ (codes "limit", positive limit)
          ∷ (codes "offset", positive offset)
          ∷ []))
        (codes "ListNodes")

  graph_add_edge : Text → Text → Text → Text → Text → Option Fields → Call env (Unit {0})
  graph_add_edge graph id from to label properties = send_unit env (
      graph_op (codes "AddEdge") (
        text_entry (codes "graph") graph
        ∷ text_entry (codes "id") id
        ∷ text_entry (codes "from") from
        ∷ text_entry (codes "to") to
        ∷ text_entry (codes "label") label
        ∷ entry (codes "properties") (or_null obj properties)
        ∷ []))

  unfoldable pub graph_get_edge : Text → Text → Call env (Option GraphEdge)
  graph_get_edge graph id =
      send_nullable env codec.edge
        (graph_op (codes "GetEdge")
          (text_entry (codes "graph") graph ∷ text_entry (codes "id") id ∷ []))
        (codes "GetEdge")

  graph_delete_edge : Text → Text → Call env (Unit {0})
  graph_delete_edge graph id = send_unit env (
      graph_op (codes "DeleteEdge")
        (text_entry (codes "graph") graph ∷ text_entry (codes "id") id ∷ []))

  graph_list_edges : Text → Option ℕ → Option ℕ → Call env GraphEdgePage
  graph_list_edges graph limit offset =
      send_decode env codec.edge_page
        (graph_op (codes "ListEdges") (
          text_entry (codes "graph") graph
          ∷ (codes "limit", positive limit)
          ∷ (codes "offset", positive offset)
          ∷ []))
        (codes "ListEdges")

  graph_add_many : Text → List GraphNodeInput → List GraphEdgeInput → Call env GraphCounts
  graph_add_many graph nodes edges =
      send_decode env codec.counts
        (graph_op (codes "AddMany") (
          text_entry (codes "graph") graph
          ∷ entry (codes "nodes") (array (map node_json nodes))
          ∷ entry (codes "edges") (array (map edge_json edges))
          ∷ []))
        (codes "AddMany")

  graph_remove_many : Text → List Text → List Text → Bool → Call env GraphRemoved
  graph_remove_many graph nodes edges detach =
      send_decode env codec.removed
        (graph_op (codes "RemoveMany") (
          text_entry (codes "graph") graph
          ∷ entry (codes "nodes") (texts nodes)
          ∷ entry (codes "edges") (texts edges)
          ∷ entry (codes "detach") (bool detach)
          ∷ []))
        (codes "RemoveMany")

  graph_update_node : Text → Text → NodeUpdate → Call env GraphNode
  graph_update_node graph id update =
      send_decode env codec.node
        (graph_op (codes "UpdateNode") (
          text_entry (codes "graph") graph
          ∷ text_entry (codes "id") id
          ∷ (codes "properties", update.properties)
          ∷ (codes "add_labels", unless_empty update.add_labels)
          ∷ (codes "remove_labels", unless_empty update.remove_labels)
          ∷ []))
        (codes "UpdateNode")

  graph_update_edge : Text → Text → Option Value → Option Text → Call env GraphEdge
  graph_update_edge graph id properties label =
      send_decode env codec.edge
        (graph_op (codes "UpdateEdge") (
          text_entry (codes "graph") graph
          ∷ text_entry (codes "id") id
          ∷ (codes "properties", properties)
          ∷ (codes "label", optional_text label)
          ∷ []))
        (codes "UpdateEdge")

  graph_import_csv : Text → Option Text → Option Text → Call env GraphCounts
  graph_import_csv graph nodes edges =
      send_decode env codec.counts
        (graph_op (codes "ImportCsv") (
          text_entry (codes "graph") graph
          ∷ (codes "nodes", optional_text nodes)
          ∷ (codes "edges", optional_text edges)
          ∷ []))
        (codes "ImportCsv")
