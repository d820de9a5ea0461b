-- ===== src/Graph/Reports.antt =====
-- graph.rs: what the server reports of a whole graph. A `BTreeMap` is its entries in key order.
use tricoredb_sdk_rust.Common.{ℕ, Bool, List, Option, Text}
use tricoredb_sdk_rust.Common.Int.{ℤ}
use tricoredb_sdk_rust.Json.{Value}
use tricoredb_sdk_rust.Graph.Kinds.{
  ComponentKind, CentralityMeasure, ConstraintKind, ConstraintTarget,
}
use tricoredb_sdk_rust.Graph.Elements.{GraphNode, GraphEdge, GraphVisit}

pub record GraphGroup : Type 0 where
  pub nodes : List Text
  pub size : ℕ
  pub truncated : Bool

pub record GraphComponents : Type 0 where
  pub kind : ComponentKind
  pub count : ℕ
  pub largest : ℕ
  pub truncated : Bool
  pub components : List GraphGroup

pub record GraphCycle : Type 0 where
  pub nodes : List Text
  pub edges : List Text

pub record GraphCycleCheck : Type 0 where
  pub has_cycle : Bool
  pub directed : Bool
  pub cycle : Option GraphCycle

pub record GraphStats : Type 0 where
  pub nodes : ℤ
  pub edges : ℤ
  pub node_labels : List (Text × ℤ)
  pub edge_types : List (Text × ℤ)
  pub unlabeled_nodes : ℤ
  pub self_loops : ℤ
  pub isolated_nodes : ℤ
  pub avg_out_degree : ℕ
  pub max_out_degree : ℤ
  pub max_in_degree : ℤ
  pub dangling_edges : ℤ

pub record GraphSubgraph : Type 0 where
  pub direction : Text
  pub max_depth : ℕ
  pub limit : ℕ
  pub node_count : ℕ
  pub edge_count : ℕ
  pub nodes : List GraphVisit
  pub edges : List GraphEdge
  pub nodes_truncated : Bool
  pub edges_truncated : Bool

pub record GraphPropertySchema : Type 0 where
  pub key : Text
  pub count : ℤ
  pub types : List Text

pub record GraphLabelSchema : Type 0 where
  pub label : Text
  pub count : ℤ
  pub properties : List GraphPropertySchema

pub record GraphEdgeTypeSchema : Type 0 where
  pub edge_type : Text
  pub count : ℤ
  pub properties : List GraphPropertySchema

pub record GraphSchema : Type 0 where
  pub nodes : ℤ
  pub edges : ℤ
  pub node_labels : List GraphLabelSchema
  pub edge_types : List GraphEdgeTypeSchema
  pub unlabeled_nodes : GraphLabelSchema

pub record GraphPathEntry : Type 0 where
  pub nodes : List Text
  pub edges : List Text
  pub hops : ℕ
  pub cost : ℕ

pub record GraphPaths : Type 0 where
  pub from : Text
  pub to : Text
  pub direction : Text
  pub count : ℕ
  pub paths : List GraphPathEntry
  pub complete : Option Bool
  pub stopped_by : Option Text

pub record GraphScore : Type 0 where
  pub id : Text
  pub score : ℕ

pub record GraphCentrality : Type 0 where
  pub measure : CentralityMeasure
  pub directed : Bool
  pub nodes : ℤ
  pub results : List GraphScore
  pub converged : Option Bool
  pub iterations : Option ℕ

pub record GraphCommunities : Type 0 where
  pub algorithm : Text
  pub count : ℕ
  pub modularity : ℕ
  pub converged : Bool
  pub iterations : ℕ
  pub communities : List GraphGroup

pub record GraphNodeTriangles : Type 0 where
  pub id : Text
  pub triangles : ℤ
  pub clustering : ℕ

pub record GraphTriangles : Type 0 where
  pub triangles : ℤ
  pub transitivity : ℕ
  pub average_clustering : ℕ
  pub nodes : List GraphNodeTriangles

pub record GraphFindings : Type 0 where
  pub count : ℤ
  pub listed : List Value

pub record GraphMirrorCheck : Type 0 where
  pub loaded : Bool
  pub differences : GraphFindings

pub record GraphConsistency : Type 0 where
  pub consistent : Bool
  pub nodes : ℤ
  pub edges : ℤ
  pub dangling_edges : GraphFindings
  pub undecodable : GraphFindings
  pub misfiled : GraphFindings
  pub mirror : GraphMirrorCheck

pub record GraphIndex : Type 0 where
  pub name : Text
  pub label : Option Text
  pub properties : List Text

pub record GraphConstraint : Type 0 where
  pub name : Text
  pub label : Text
  pub property : Text
  pub kind : ConstraintKind
  pub target : ConstraintTarget

pub record GraphSchemaObjects : Type 0 where
  pub indexes : List GraphIndex
  pub constraints : List GraphConstraint

pub record GraphFoundNodes : Type 0 where
  pub count : ℕ
  pub nodes : List GraphNode
  pub plan : Text
  pub truncated : Bool

pub record GraphPageRank : Type 0 where
  pub ranks : List GraphScore
  pub count : ℕ
  pub damping : ℕ
  pub iterations : ℕ
  pub converged : Bool
  pub truncated : Bool

pub record Graphs : Type 0 where
  pub graphs : List Text
