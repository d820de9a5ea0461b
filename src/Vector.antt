-- ===== src/Vector.antt =====
-- vector.rs: how the body of a vector operation is built.
pub mod Kinds
pub mod Items
pub mod Reports
pub mod Settings
pub mod Codec
pub mod Collections
pub mod Points
pub mod Search
use mathlib.Core.Option
use tricoredb_sdk_rust.Common.{
  ℕ, Bool, true, false, not, ◌&&◌, List, [], ◌∷◌, map, Option, none, some, Text, codes, is_some,
  if◌then◌else◌,
}
use tricoredb_sdk_rust.Json.{
  Value, Fields, string, bool, num, array, obj, null, tagged, is_empty_map,
}
use tricoredb_sdk_rust.Json.Maps.{Entry, entry, texts, float_value, object}
use Kinds.{score_metric_json, strategy_json, ann_json}
use Items.{SparseVector, VectorExample, VectorUpsert, TextUpsert}
use Settings.{VectorSearchOptions, VectorConfigChange}

unfoldable pub op : Value → Value
op body = tagged (codes "Vector") body

-- An operation with a body of named fields.
abbrev pub vector_op : Text → List Entry → Value
vector_op variant entries = op (tagged variant (object entries))

abbrev pub text_entry : Text → Text → Entry
text_entry k t = entry k (string t)

abbrev pub optional_text : Option Text → Option Value
optional_text t = Option.map string t

abbrev pub floats : List ℕ → Value
floats vs = array (map float_value vs)

-- `bool::then_some(true)`.
abbrev pub then_some : Bool → Option Value
then_some b = if b then some (bool true) else none

sparse_json : SparseVector → Value
sparse_json s = object (
    entry (codes "indices") (array (map num s.indices))
    ∷ entry (codes "values") (floats s.values)
    ∷ [])

-- `VectorSearchOptions::write`.
pub write : VectorSearchOptions → List Entry
unfolding sparse_json
write o =
    (codes "filter", o.filter)
    ∷ (codes "min_score", Option.map float_value o.min_score)
    ∷ (codes "include_vectors", then_some o.include_vectors)
    ∷ (codes "offset", Option.map num o.offset)
    ∷ (codes "include_metadata", Option.map bool o.include_metadata)
    ∷ (codes "max_distance", Option.map float_value o.max_distance)
    ∷ (codes "ef_search", Option.map num o.ef_search)
    ∷ (codes "exact", then_some o.exact)
    ∷ (codes "score_metric", Option.map score_metric_json o.score_metric)
    ∷ (codes "filter_strategy", Option.map strategy_json o.filter_strategy)
    ∷ (codes "using", Option.map string o.using)
    ∷ (codes "tenant", Option.map string o.tenant)
    ∷ (codes "namespace", Option.map string o.namespace)
    ∷ (codes "sparse", Option.map sparse_json o.sparse)
    ∷ (codes "hybrid_alpha", Option.map float_value o.hybrid_alpha)
    ∷ (codes "explain", then_some o.explain)
    ∷ (codes "score_expr", Option.map string o.score_expr)
    ∷ (codes "explain_text", Option.map string o.explain_text)
    ∷ (codes "ann", Option.map ann_json o.ann)
    ∷ (codes "nprobe", Option.map num o.nprobe)
    ∷ []

-- No filter at all is sent as null.
pub filter_value : Fields → Value
filter_value filter = if is_empty_map filter then null else obj filter

example_json : VectorExample → Value
example_json (VectorExample.id id) = string id
example_json (VectorExample.vector vector) = floats vector

new_upsert : Text → List ℕ → VectorUpsert
new_upsert id vector = record { id = id; vector = vector; metadata = none }

upsert_with : Fields → VectorUpsert → VectorUpsert
upsert_with metadata item = record item { metadata = some metadata }

vector_upsert_json : VectorUpsert → Value
vector_upsert_json item = object (
    text_entry (codes "id") item.id
    ∷ entry (codes "vector") (floats item.vector)
    ∷ (codes "metadata", Option.map obj item.metadata)
    ∷ [])

new_text : Text → Text → TextUpsert
new_text id text = record { id = id; text = text; metadata = none }

text_with : Fields → TextUpsert → TextUpsert
text_with metadata item = record item { metadata = some metadata }

text_upsert_json : TextUpsert → Value
text_upsert_json item = object (
    text_entry (codes "id") item.id
    ∷ text_entry (codes "text") item.text
    ∷ (codes "metadata", Option.map obj item.metadata)
    ∷ [])

named_vector : Text × List ℕ → Entry
named_vector p = entry p.0 (floats p.1)

-- `*change == VectorConfigChange::default()`.
unfoldable pub sets_nothing : VectorConfigChange → Bool
sets_nothing c =
    not (is_some c.normalize)
    && not (is_some c.m)
    && not (is_some c.ef_construction)
    && not (is_some c.multi_tenant)
