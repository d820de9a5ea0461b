-- ===== src/Document/Settings.antt =====
-- document.rs: what a caller may set of an operation or a collection.
use tricoredb_sdk_rust.Common.{ℕ, Bool, true, List, Option, none, Text, codes}
use tricoredb_sdk_rust.Json.{Value, Fields}
use tricoredb_sdk_rust.Document.Kinds.{ReturnDocument, FieldType}
use tricoredb_sdk_rust.Json.{string, bool, num, array}
use tricoredb_sdk_rust.Json.Maps.{entry, texts, float_value, object}
use tricoredb_sdk_rust.Document.Stages.{SortKey}
use tricoredb_sdk_rust.Document.Updates.{unless_empty_map}
use mathlib.Core.Option
use tricoredb_sdk_rust.Common.{[], ◌∷◌, map, some, is_empty, if◌then◌else◌}

-- No document asked for is left out.
pub return_json : ReturnDocument → Option Value
return_json ReturnDocument.none = none
return_json ReturnDocument.before = some (string (codes "Before"))
return_json ReturnDocument.after = some (string (codes "After"))

pub record ReplaceOptions : Type 0 where
  pub upsert : Bool
  pub return_document : ReturnDocument
  pub expected_version : Option ℕ

pub record ExplainOptions : Type 0 where
  pub limit : Option ℕ
  pub sort : List SortKey
  pub skip : Option ℕ

field_type_json : FieldType → Value
field_type_json FieldType.string_type = string (codes "string")
field_type_json FieldType.number_type = string (codes "number")
field_type_json FieldType.integer_type = string (codes "integer")
field_type_json FieldType.boolean_type = string (codes "boolean")
field_type_json FieldType.object_type = string (codes "object")
field_type_json FieldType.array_type = string (codes "array")
field_type_json FieldType.null_type = string (codes "null")

pub record FieldRule : Type 0 where
  pub field_type : Option FieldType
  pub one_of : List Value
  pub minimum : Option ℕ
  pub maximum : Option ℕ
  pub min_length : Option ℕ
  pub max_length : Option ℕ
  pub pattern_text : Option Text

of_type : FieldType → FieldRule
of_type field_type = record {
  field_type = some field_type;
  one_of = [];
  minimum = none;
  maximum = none;
  min_length = none;
  max_length = none;
  pattern_text = none;
}

rule_json : FieldRule → Value
unfolding field_type_json
rule_json r = object (
    (codes "type", Option.map field_type_json r.field_type)
    ∷ (codes "one_of", if is_empty r.one_of then none else some (array r.one_of))
    ∷ (codes "minimum", Option.map float_value r.minimum)
    ∷ (codes "maximum", Option.map float_value r.maximum)
    ∷ (codes "min_length", Option.map num r.min_length)
    ∷ (codes "max_length", Option.map num r.max_length)
    ∷ (codes "pattern", Option.map string r.pattern_text)
    ∷ [])

pub record DocumentSchema : Type 0 where
  pub required : List Text
  pub fields : List (Text × FieldRule)
  pub additional_fields : Bool

default_schema : DocumentSchema
default_schema = record { required = []; fields = []; additional_fields = true }

schema_json : DocumentSchema → Value
unfolding rule_json
schema_json s = object (
    entry (codes "required") (texts s.required)
    ∷ entry (codes "fields") (object (map (λ p. entry p.0 (rule_json p.1)) s.fields))
    ∷ entry (codes "additional_fields") (bool s.additional_fields)
    ∷ [])

pub record CollectionOptions : Type 0 where
  pub schema : Option DocumentSchema
  pub defaults : Fields
  pub versioned : Bool

pub collection_options_json : CollectionOptions → Value
unfolding schema_json
collection_options_json o = object (
    (codes "schema", Option.map schema_json o.schema)
    ∷ (codes "defaults", unless_empty_map o.defaults)
    ∷ entry (codes "versioned") (bool o.versioned)
    ∷ [])
