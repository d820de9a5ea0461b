-- ===== src/Graph/SchemaObjects.antt =====
-- graph.rs: indexes, constraints, and lookups that use them.
use mathlib.Core.Option
use tricoredb_sdk_rust.Common.{ℕ, List, [], ◌∷◌, Option, Text, codes}
use tricoredb_sdk_rust.Environment.{Environment}
use tricoredb_sdk_rust.Json.{Fields, num, obj}
use tricoredb_sdk_rust.Json.Maps.{entry, texts}
use tricoredb_sdk_rust.Client.{Call}
use tricoredb_sdk_rust.Client.Sending.Requests.{send_decode, send_unit}
use tricoredb_sdk_rust.Graph.Kinds.{ConstraintKind, ConstraintTarget, constraint_json, target_json}
use tricoredb_sdk_rust.Graph.Reports.{GraphSchemaObjects, GraphFoundNodes}
use tricoredb_sdk_rust.Graph.Codec.{GraphCodec}
use tricoredb_sdk_rust.Graph.{graph_op, text_entry, optional_text}

module _ {W A S T : Type 0} (env : Environment W A S T) (codec : GraphCodec) where
  graph_create_node_index : Text → Text → Option Text → List Text → Call env (Unit {0})
  graph_create_node_index graph name label properties = send_unit env (
      graph_op (codes "CreateNodeIndex") (
        text_entry (codes "graph") graph
        ∷ text_entry (codes "name") name
        ∷ (codes "label", optional_text label)
        ∷ entry (codes "properties") (texts properties)
        ∷ []))

  graph_create_constraint :
      Text → Text → Text → Text → ConstraintKind → ConstraintTarget → Call env (Unit {0})
  graph_create_constraint graph name label property kind target = send_unit env (
      graph_op (codes "CreateConstraint") (
        text_entry (codes "graph") graph
        ∷ text_entry (codes "name") name
        ∷ text_entry (codes "label") label
        ∷ text_entry (codes "property") property
        ∷ entry (codes "kind") (constraint_json kind)
        ∷ entry (codes "target") (target_json target)
        ∷ []))

  graph_drop_schema_object : Text → Text → Call env (Unit {0})
  graph_drop_schema_object graph name = send_unit env (
      graph_op (codes "DropSchemaObject")
        (text_entry (codes "graph") graph ∷ text_entry (codes "name") name ∷ []))

  graph_list_schema_objects : Text → Call env GraphSchemaObjects
  graph_list_schema_objects graph =
      send_decode env codec.schema_objects
        (graph_op (codes "ListSchemaObjects") (text_entry (codes "graph") graph ∷ []))
        (codes "ListSchemaObjects")

  graph_find_nodes : Text → Option Text → Option Fields → Option ℕ → Call env GraphFoundNodes
  graph_find_nodes graph label properties limit =
      send_decode env codec.found_nodes
        (graph_op (codes "FindNodes") (
          text_entry (codes "graph") graph
          ∷ (codes "label", optional_text label)
          ∷ (codes "properties", Option.map obj properties)
          ∷ (codes "limit", Option.map num limit)
          ∷ []))
        (codes "FindNodes")
