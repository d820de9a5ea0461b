-- ===== src/Graph.antt =====
-- graph.rs: how the body of a graph operation is built.
pub mod Kinds
pub mod Elements
pub mod Reports
pub mod Settings
pub mod Codec
pub mod Calls
pub mod Walks
pub mod Analysis
pub mod SchemaObjects
pub mod Transactions
mod Tests
use mathlib.Core.Option
use tricoredb_sdk_rust.Common.{
  Bool, true, false, not, List, [], ◌∷◌, map, Option, none, some, Text, codes, is_empty,
  if◌then◌else◌,
}
use tricoredb_sdk_rust.Json.{Value, Fields, string, obj, tagged}
use tricoredb_sdk_rust.Json.Maps.{Entry, entry, or_null, positive, texts, object}
use Kinds.{GraphDirection, direction_json}
use Settings.{TraverseOptions, GraphNodeInput, GraphEdgeInput, NodeUpdate}

unfoldable pub op : Value → Value
op body = tagged (codes "Graph") body

-- An operation with a body of named fields.
abbrev pub graph_op : Text → List Entry → Value
graph_op variant entries = op (tagged variant (object entries))

direction_value : Option GraphDirection → Option Value
direction_value direction = Option.map direction_json direction

abbrev pub text_entry : Text → Text → Entry
text_entry k t = entry k (string t)

abbrev pub optional_text : Option Text → Option Value
optional_text t = Option.map string t

-- The settings of a walk. A bound of zero is the server's default.
put_walk : TraverseOptions → List Entry
put_walk o =
    (codes "direction", direction_value o.direction)
    ∷ (codes "label", optional_text o.label)
    ∷ (codes "max_depth", positive o.max_depth)
    ∷ (codes "limit", positive o.limit)
    ∷ []

-- An empty list is left out.
abbrev pub unless_empty : List Text → Option Value
unless_empty ts = if is_empty ts then none else some (texts ts)

new_node : Text → List Text → GraphNodeInput
new_node id labels = record { id = id; labels = labels; properties = none }

node_with : Fields → GraphNodeInput → GraphNodeInput
node_with properties input = record input { properties = some properties }

node_json : GraphNodeInput → Value
node_json input = object (
    text_entry (codes "id") input.id
    ∷ entry (codes "labels") (texts input.labels)
    ∷ (codes "properties", Option.map obj input.properties)
    ∷ [])

new_edge : Text → Text → Text → Text → GraphEdgeInput
new_edge id from to label = record {
  id = id;
  from = from;
  to = to;
  label = label;
  properties = none;
}

edge_with : Fields → GraphEdgeInput → GraphEdgeInput
edge_with properties input = record input { properties = some properties }

edge_json : GraphEdgeInput → Value
edge_json input = object (
    text_entry (codes "id") input.id
    ∷ text_entry (codes "from") input.from
    ∷ text_entry (codes "to") input.to
    ∷ text_entry (codes "label") input.label
    ∷ (codes "properties", Option.map obj input.properties)
    ∷ [])
