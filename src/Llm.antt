-- ===== src/Llm.antt =====
-- llm.rs: context exports for language models, and the two administrative reads.
pub mod Rendering
mod Tests
use mathlib.Core.Option
use tricoredb_sdk_rust.Act.{Act, lift, raise, pure, ◌>>=◌}
use tricoredb_sdk_rust.Common.{
  ℕ, Bool, true, false, ◌||◌, List, [], ◌∷◌, ◌++◌, map, Option, none, some, Text, codes, text_eq,
  is_empty, unwrap_or, if◌then◌else◌,
}
use tricoredb_sdk_rust.Environment.{Environment}
use tricoredb_sdk_rust.Failure.{Error, Result, ok, err, invalid, protocol_error}
use tricoredb_sdk_rust.Json.{
  Value, Fields, string, bool, array, null, end, tagged, insert_field, as_str,
}
use tricoredb_sdk_rust.Json.Maps.{Entry, entry, positive, object}
use tricoredb_sdk_rust.Response.{Response, Parsed, describe, decode}
use tricoredb_sdk_rust.Client.{Call}
use tricoredb_sdk_rust.Client.Sending.{send}
use tricoredb_sdk_rust.Client.Sending.Requests.{send_unit}
use tricoredb_sdk_rust.Document.Stages.{DocumentFilter}

pub data OutputFormat : Type 0 where
  native json toon markdown : OutputFormat

-- `rename_all = "lowercase"`.
pub format_json : OutputFormat → Value
format_json native = string (codes "native")
format_json json = string (codes "json")
format_json toon = string (codes "toon")
format_json markdown = string (codes "markdown")

pub record LlmOptions : Type 0 where
  pub max_rows : Option ℕ
  pub redact_sensitive : Bool
  pub include_schema : Bool

pub default_llm : LlmOptions
default_llm = record { max_rows = none; redact_sensitive = true; include_schema = false }

with_max_rows : ℕ → LlmOptions → LlmOptions
with_max_rows rows o = record o { max_rows = some rows }

with_redaction : Bool → LlmOptions → LlmOptions
with_redaction redact o = record o { redact_sensitive = redact }

with_schema : Bool → LlmOptions → LlmOptions
with_schema include o = record o { include_schema = include }

-- `LlmOptions::to_wire`. A cap of zero is none.
pub to_wire : LlmOptions → Value
to_wire o = object (
    entry (codes "max_rows") (unwrap_or (positive o.max_rows) null)
    ∷ entry (codes "redact_sensitive") (bool o.redact_sensitive)
    ∷ entry (codes "include_schema") (bool o.include_schema)
    ∷ [])

pub record LlmSource : Type 0 where
  pub source_value : Value

sql_source : Text → LlmSource
sql_source query = record {
  source_value = tagged (codes "Sql") (object (entry (codes "query") (string query) ∷ []));
}

find_source : Text → DocumentFilter → Option ℕ → LlmSource
find_source collection filter limit = record {
  source_value = tagged (codes "DocumentFind") (
      object (
        entry (codes "collection") (string collection)
        ∷ entry (codes "filter") filter.filter_value
        ∷ entry (codes "limit") (unwrap_or (positive limit) null)
        ∷ []));
}

pub llm_op : Text → List Entry → Value
llm_op variant entries = tagged (codes "Llm") (tagged variant (object entries))

abbrev pub not_rendered : Response → Error
not_rendered r = protocol_error (codes "expected a rendered export, got " ++ describe r)

-- A text stands for itself, and any other value for how it prints.
abbrev pub text_or_print : (Value → Text) → Value → Text
text_or_print to_string v = unwrap_or (as_str v) (to_string v)

rendered : (Value → Text) → Response → Result Text
rendered to_string r =
    if text_eq r.kind (codes "Toon") || text_eq r.kind (codes "Message")
    then ok (text_or_print to_string r.data_value)
    else if text_eq r.kind (codes "Json")
    then ok (to_string r.data_value)
    else err (not_rendered r)

module _ {W A S T : Type 0} (env : Environment W A S T) where
  unfoldable pub llm_context : List LlmSource → OutputFormat → Option LlmOptions → Call env Text
  unfolding format_json to_wire default_llm llm_op rendered
  llm_context sources format o =
      if is_empty sources
      then raise (invalid (codes "a context bundle needs at least one source"))
      else (do
        r ← send env (
            llm_op (codes "Context") (
              entry (codes "sources") (array (map (λ s. s.source_value) sources))
              ∷ entry (codes "format") (format_json format)
              ∷ entry (codes "options") (to_wire (unwrap_or o default_llm))
              ∷ []))
        lift (rendered env.to_string r))

  pub llm_schema : OutputFormat → Option LlmOptions → Call env Text
  unfolding format_json to_wire default_llm llm_op rendered
  llm_schema format o = do
    r ← send env (
        llm_op (codes "Schema") (
          entry (codes "format") (format_json format)
          ∷ entry (codes "options") (to_wire (unwrap_or o default_llm))
          ∷ []))
    lift (rendered env.to_string r)

  admin_ping : Call env (Unit {0})
  admin_ping = send_unit env (tagged (codes "Admin") (string (codes "Ping")))

  -- A plain message is handed back under a key of its own.
  status_of : (Value → Parsed Fields) → Response → Result Fields
  status_of read r =
      if text_eq r.kind (codes "Message")
      then ok (insert_field (codes "message") (string (unwrap_or (as_str r.data_value) [])) end)
      else decode read r (codes "admin status")

  admin_status : (Value → Parsed Fields) → Call env Fields
  unfolding status_of
  admin_status read = do
    r ← send env (tagged (codes "Admin") (string (codes "Status")))
    lift (status_of read r)
