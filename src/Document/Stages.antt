-- ===== src/Document/Stages.antt =====
-- document.rs: filters, and the stages of an aggregation. Each is sent as the value it holds.
use tricoredb_sdk_rust.Common.{ℕ, Bool, true, false, List, [], ◌∷◌, map, Text, codes}
use tricoredb_sdk_rust.Json.{Value, string, bool, num, array, tagged}
use tricoredb_sdk_rust.Json.Maps.{entry, texts, object}

pub record DocumentFilter : Type 0 where
  pub filter_value : Value

-- `{variant: {"field": field, "value": value}}`.
field_filter : Text → Text → Value → DocumentFilter
field_filter variant field value = record {
  filter_value =
      tagged variant
        (object (entry (codes "field") (string field) ∷ entry (codes "value") value ∷ []));
}

every_document : DocumentFilter
every_document = record { filter_value = string (codes "All") }

eq_filter : Text → Value → DocumentFilter
unfolding field_filter
eq_filter field value = field_filter (codes "Eq") field value

ne_filter : Text → Value → DocumentFilter
unfolding field_filter
ne_filter field value = field_filter (codes "Ne") field value

gt_filter : Text → Value → DocumentFilter
unfolding field_filter
gt_filter field value = field_filter (codes "Gt") field value

gte_filter : Text → Value → DocumentFilter
unfolding field_filter
gte_filter field value = field_filter (codes "Gte") field value

lt_filter : Text → Value → DocumentFilter
unfolding field_filter
lt_filter field value = field_filter (codes "Lt") field value

lte_filter : Text → Value → DocumentFilter
unfolding field_filter
lte_filter field value = field_filter (codes "Lte") field value

contains_filter : Text → Value → DocumentFilter
unfolding field_filter
contains_filter field value = field_filter (codes "Contains") field value

is_in : Text → List Value → DocumentFilter
is_in field values = record {
  filter_value =
      tagged (codes "In") (
        object (entry (codes "field") (string field) ∷ entry (codes "values") (array values) ∷ []));
}

and_filter : List DocumentFilter → DocumentFilter
and_filter filters = record {
  filter_value = tagged (codes "And") (array (map (λ f. f.filter_value) filters));
}

pub record GroupKey : Type 0 where
  pub key_value : Value

key_field : Text → GroupKey
key_field path = record { key_value = tagged (codes "Field") (string path) }

key_constant : Value → GroupKey
key_constant value = record { key_value = tagged (codes "Constant") value }

pub record AccumulatorOp : Type 0 where
  pub op_value : Value

sum_of : Text → AccumulatorOp
sum_of field = record { op_value = tagged (codes "Sum") (string field) }

avg_of : Text → AccumulatorOp
avg_of field = record { op_value = tagged (codes "Avg") (string field) }

min_of : Text → AccumulatorOp
min_of field = record { op_value = tagged (codes "Min") (string field) }

max_of : Text → AccumulatorOp
max_of field = record { op_value = tagged (codes "Max") (string field) }

count_documents : AccumulatorOp
count_documents = record { op_value = string (codes "Count") }

pub record GroupAccumulator : Type 0 where
  pub output : Text
  pub op : AccumulatorOp

new_accumulator : Text → AccumulatorOp → GroupAccumulator
new_accumulator output op = record { output = output; op = op }

accumulator_json : GroupAccumulator → Value
accumulator_json a =
    object (entry (codes "output") (string a.output) ∷ entry (codes "op") a.op.op_value ∷ [])

pub record SortKey : Type 0 where
  pub field : Text
  pub descending : Bool

ascending_by : Text → SortKey
ascending_by field = record { field = field; descending = false }

descending_by : Text → SortKey
descending_by field = record { field = field; descending = true }

pub sort_key_json : SortKey → Value
sort_key_json k =
    object
      (entry (codes "field") (string k.field) ∷ entry (codes "descending") (bool k.descending) ∷ [])

pub record AggregateStage : Type 0 where
  pub stage_value : Value

match_stage : DocumentFilter → AggregateStage
match_stage filter = record { stage_value = tagged (codes "Match") filter.filter_value }

group_stage : GroupKey → List GroupAccumulator → AggregateStage
unfolding accumulator_json
group_stage by_key accumulators = record {
  stage_value = tagged (codes "Group") (
      object (
        entry (codes "by") by_key.key_value
        ∷ entry (codes "accumulators") (array (map accumulator_json accumulators))
        ∷ []));
}

sort_stage : List SortKey → AggregateStage
unfolding sort_key_json
sort_stage keys = record { stage_value = tagged (codes "Sort") (array (map sort_key_json keys)) }

skip_stage : ℕ → AggregateStage
skip_stage n = record { stage_value = tagged (codes "Skip") (num n) }

limit_stage : ℕ → AggregateStage
limit_stage n = record { stage_value = tagged (codes "Limit") (num n) }

project_stage : List Text → Bool → AggregateStage
project_stage fields include = record {
  stage_value = tagged (codes "Project") (
      object (entry (codes "fields") (texts fields) ∷ entry (codes "include") (bool include) ∷ []));
}

count_stage : Text → AggregateStage
count_stage field = record {
  stage_value = tagged (codes "Count") (object (entry (codes "field") (string field) ∷ []));
}
