-- ===== src/Cache/Batches.antt =====
-- cache.rs: commands that are sent together.
pub mod Replies
mod Tests
use mathlib.Core.Option
use tricoredb_sdk_rust.Act.{Act, lift, ◌>>=◌}
use tricoredb_sdk_rust.Common.{
  ℕ, Bool, true, false, List, [], ◌∷◌, ◌++◌, map, Option, none, some, Text, codes, text_eq,
  if◌then◌else◌,
}
use tricoredb_sdk_rust.Common.Int.{ℤ}
use tricoredb_sdk_rust.Environment.{Environment}
use tricoredb_sdk_rust.Failure
use tricoredb_sdk_rust.Failure.{Error, Result, ok, err, protocol_error, ok_or, collect}
use tricoredb_sdk_rust.Json.{
  Value, Fields, null, string, array, num, obj, end, tagged, insert_field, get, as_array,
}
use tricoredb_sdk_rust.Json.Maps.{entry, or_null, texts, object, fill}
use tricoredb_sdk_rust.Options.{Duration}
use tricoredb_sdk_rust.Response.{Parsed}
use tricoredb_sdk_rust.Wire.{byte_list, decode_byte_list}
use tricoredb_sdk_rust.Client.{Call}
use tricoredb_sdk_rust.Client.Sending.Requests.{send_unit}
use tricoredb_sdk_rust.Cache.{
  CacheReply, answered, failed_with, from_wire, int, ttl_value, ns_body, ns_key, op,
}
use tricoredb_sdk_rust.Cache.Calls.{CacheCodec, cache_json}

-- One operation of a batch, as it is sent.
pub record CacheCommand : Type 0 where
  pub command_value : Value

new_command : Text → Value → CacheCommand
new_command variant body = record { command_value = tagged variant body }

unit_command : Text → CacheCommand
unit_command variant = record { command_value = string variant }

get_command : Text → Text → CacheCommand
unfolding new_command
get_command namespace key = new_command (codes "Get") (obj (ns_key namespace key))

set_command : Text → Text → List ℕ → Option Duration → CacheCommand
unfolding new_command
set_command namespace key value ttl = new_command (codes "Set") (
    obj (
      insert_field (codes "ttl_ms") (ttl_value ttl)
        (insert_field (codes "value") (byte_list value) (ns_key namespace key))))

delete_command : Text → Text → CacheCommand
unfolding new_command
delete_command namespace key = new_command (codes "Delete") (obj (ns_key namespace key))

exists_command : Text → Text → CacheCommand
unfolding new_command
exists_command namespace key = new_command (codes "Exists") (obj (ns_key namespace key))

incr_command : Text → Text → ℤ → CacheCommand
unfolding new_command
incr_command namespace key by_amount =
    new_command (codes "Incr")
      (obj (insert_field (codes "by") (int by_amount) (ns_key namespace key)))

reply_is_ok : CacheReply → Bool
reply_is_ok (answered kind payload) = true
reply_is_ok (failed_with text) = false

-- `Result::ok`.
kept : Result (List ℕ) → Option (List ℕ)
kept (ok bytes) = some bytes
kept (err e) = none

-- `CacheReply::value`.
pub reply_value : (Value → Text) → CacheReply → Option (List ℕ)
unfolding kept
reply_value to_string (answered kind payload) =
    if text_eq kind (codes "CacheValue") then kept (decode_byte_list to_string payload) else none
reply_value to_string (failed_with text) = none

-- `and_then(Value::as_array)`.
abbrev results_of : Option Value → Option (List Value)
results_of none = none
results_of (some v) = as_array v

-- The replies of a batch, in the order of its operations.
pub replies_of : (Value → Text) → Text → Value → Result (List CacheReply)
replies_of to_string what v =
    Failure.◌>>=◌
      (ok_or (results_of (get v (codes "results")))
        (protocol_error (codes "malformed " ++ (what ++ codes " payload: no results"))))
      (collect (from_wire to_string))

abbrev pub batch_op : Text → List CacheCommand → Value
batch_op variant ops =
    op variant (fill (entry (codes "ops") (array (map (λ c. c.command_value) ops)) ∷ []) end)

abbrev pub script_request : Text → List Text → Value
script_request name args =
    op (codes "ScriptRun")
      (fill (entry (codes "name") (string name) ∷ entry (codes "args") (texts args) ∷ []) end)

module _ {W A S T : Type 0} (env : Environment W A S T) (codec : CacheCodec) where
  cache_replies : Value → Text → Call env (List CacheReply)
  cache_replies request what = do
    v ← cache_json env codec codec.any_value request what
    lift (replies_of env.to_string what v)

  pub cache_pipeline : List CacheCommand → Call env (List CacheReply)
  unfolding cache_replies
  cache_pipeline ops = cache_replies (batch_op (codes "Pipeline") ops) (codes "Pipeline")

  pub cache_transaction : List CacheCommand → Call env (List CacheReply)
  unfolding cache_replies
  cache_transaction ops = cache_replies (batch_op (codes "Transaction") ops) (codes "Transaction")

  cache_script_load : Text → List CacheCommand → Call env (Unit {0})
  cache_script_load name ops = send_unit env (
      op (codes "ScriptLoad") (
        fill
          (entry (codes "name") (string name)
            ∷ entry (codes "ops") (array (map (λ c. c.command_value) ops))
            ∷ [])
          end))

  pub cache_script_run : Text → List Text → Call env (List CacheReply)
  unfolding cache_replies
  cache_script_run name args = cache_replies (script_request name args) (codes "ScriptRun")
