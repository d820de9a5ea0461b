-- ===== src/Graph/Elements.antt =====
-- graph.rs: nodes, edges, and the replies that hold them. An `f64` is its bit pattern.
use tricoredb_sdk_rust.Common.{ℕ, Bool, List, Option, Text}
use tricoredb_sdk_rust.Common.Int.{ℤ}
use tricoredb_sdk_rust.Json.{Value, Fields}
use tricoredb_sdk_rust.Graph.Kinds.{GraphDirection}

pub record GraphNode : Type 0 where
  pub id : Text
  pub labels : List Text
  pub properties : Fields

pub record GraphEdge : Type 0 where
  pub id : Text
  pub from : Text
  pub to : Text
  pub label : Text
  pub properties : Fields

pub record GraphNeighbor : Type 0 where
  pub edge_id : Text
  pub node_id : Text
  pub label : Text
  pub direction : GraphDirection

pub record GraphVisit : Type 0 where
  pub id : Text
  pub depth : ℕ
  pub labels : List Text
  pub properties : Fields

pub record GraphTraversal : Type 0 where
  pub start : Text
  pub direction : Text
  pub max_depth : ℕ
  pub limit : ℕ
  pub count : ℕ
  pub truncated : Bool
  pub nodes : List GraphVisit

pub record GraphPath : Type 0 where
  pub found : Bool
  pub from : Text
  pub to : Text
  pub direction : Text
  pub hops : ℕ
  pub node_path : List Text
  pub edge_path : List Text
  pub total_cost : ℕ
  pub message : Text

pub record GraphNodePage : Type 0 where
  pub graph : Text
  pub count : ℕ
  pub nodes : List GraphNode
  pub truncated : Bool
  pub total : ℤ

pub record GraphEdgePage : Type 0 where
  pub graph : Text
  pub count : ℕ
  pub edges : List GraphEdge
  pub truncated : Bool
  pub total : ℤ

pub record GraphRows : Type 0 where
  pub graph : Text
  pub columns : List Text
  pub rows : List (List Value)
  pub count : ℕ
  pub truncated : Bool

pub record GraphCounts : Type 0 where
  pub nodes : ℤ
  pub edges : ℤ

pub record GraphRemoved : Type 0 where
  pub nodes_removed : ℤ
  pub edges_removed : ℤ

pub record GraphWriteSummary : Type 0 where
  pub statements : ℤ
  pub nodes_created : ℤ
  pub nodes_deleted : ℤ
  pub relationships_created : ℤ
  pub relationships_deleted : ℤ
  pub properties_set : ℤ
  pub labels_added : ℤ
  pub labels_removed : ℤ
  pub queued : Option ℤ
  pub committed : Option ℤ
