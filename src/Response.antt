-- ===== src/Response.antt =====
-- response.rs: a decoded `RESPONSE` frame, and the unwrapping of its externally tagged data.
-- How serde_json prints a value, and reads one into a type, are parameters.
use tricoredb_sdk_rust.Common.{
  List, Option, none, some, Text, [], ◌++◌, ◌||◌, codes, text_eq, is_empty, if◌then◌else◌,
}
use tricoredb_sdk_rust.Common.Int.{ℤ}
use tricoredb_sdk_rust.Failure.{Result, ok, err, ◌>>=◌, protocol_error}
use tricoredb_sdk_rust.Json.{Value, Fields, as_str}

pub record Response : Type 0 where
  pub request_id : Text
  pub status : Text
  pub kind : Text
  pub data_value : Value
  pub route : Option Text
  pub elapsed_ms : Option ℤ
  pub warnings : List Text
  pub error_code : Option Text
  pub leader_hint : Option Text

-- What reading JSON into a type gives: a value, or the parser's complaint.
pub data Parsed {ℓ} (A : Type ℓ) : Type ℓ where
  parsed : A → Parsed A
  malformed : Text → Parsed A

-- `map_err` of a parse, with the text that stands before the complaint.
abbrev pub parsed_or {ℓ} : {A : Type ℓ} → Parsed A → Text → Result A
parsed_or (parsed a) m = ok a
parsed_or (malformed e) m = err (protocol_error (m ++ e))

pub describe : Response → Text
describe r = if is_empty r.kind then codes "no data" else r.kind

unfoldable pub expect : Response → Text → Text → Result Value
expect r kind what =
    if text_eq r.kind kind
    then ok r.data_value
    else err (
        protocol_error (
          codes "expected "
          ++ (kind ++ (codes " from " ++ (what ++ (codes ", got " ++ describe r))))))

unfoldable pub decode : {T : Type 0} → (Value → Parsed T) → Response → Text → Result T
decode from_value r what = do
  v ← expect r (codes "Json") what
  parsed_or (from_value v) (codes "malformed " ++ (what ++ codes " payload: "))

text_or : Option Text → Text → Text
text_or none d = d
text_or (some t) d = if is_empty t then d else t

pub failure_message : (Value → Text) → Response → Text
unfolding text_or
failure_message to_string r =
    if text_eq r.kind (codes "Message") || text_eq r.kind (codes "Toon")
    then text_or (as_str r.data_value) (to_string r.data_value)
    else if text_eq r.kind (codes "Json")
    then to_string r.data_value
    else if is_empty r.status
    then codes "the request failed"
    else codes "the server answered `" ++ (r.status ++ codes "`")

unfoldable pub decode_variant : Value → Text × Value
decode_variant Value.null = ([], Value.null)
decode_variant (Value.string name) = (name, Value.null)
decode_variant (Value.obj (Fields.field name payload fs)) = (name, payload)
decode_variant (Value.obj Fields.end) = ([], Value.null)
decode_variant other = ([], other)
