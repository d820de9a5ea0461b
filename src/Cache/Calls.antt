-- ===== src/Cache/Calls.antt =====
-- cache.rs: the operations on single values, and what every operation shares.
pub mod Answers
use tricoredb_sdk_rust.Act.{Act, lift, pure, ◌>>=◌}
use tricoredb_sdk_rust.Common.{
  ℕ, ◌+◌, ◌*◌, Bool, true, false, List, [], ◌∷◌, ◌++◌, map, Option, none, some, Text, codes,
  if◌then◌else◌,
}
use tricoredb_sdk_rust.Common.Int.{ℤ}
use tricoredb_sdk_rust.Environment.{Environment}
use tricoredb_sdk_rust.Failure.{Error, Result, ok, err}
use tricoredb_sdk_rust.Json.{Value, Fields, null, string, num, insert_field, tagged}
use tricoredb_sdk_rust.Json.Maps.{or_null}
use tricoredb_sdk_rust.Options.{Duration, from_millis}
use tricoredb_sdk_rust.Response.{Response, Parsed, expect, decode}
use tricoredb_sdk_rust.Wire.{byte_list}
use tricoredb_sdk_rust.Client.{Call, Session}
use tricoredb_sdk_rust.Client.Sending.{send}
use tricoredb_sdk_rust.Cache.{
  int, CacheEntry, CacheExpiry, SetCondition, condition_to_wire, expiry_to_wire, millis, ttl_value,
  ns_body, ns_key, keys_body, op, entries_op, value_or_miss, values_or_misses,
}

pub record CacheKeyInfo : Type 0 where
  pub info_key : Text
  pub ttl_ms : Option ℤ
  pub bytes : ℤ

-- The readers that serde derives for replies of one field, which has a default.
pub record CacheCodec : Type 0 where
  pub int_field : Text → Value → Parsed ℤ
  pub bool_field : Text → Value → Parsed Bool
  pub text_field : Text → Value → Parsed Text
  pub optional_int_field : Text → Value → Parsed (Option ℤ)
  pub key_infos : Value → Parsed (List CacheKeyInfo)
  pub any_value : Value → Parsed Value
  -- the entries of a stream: ids, and pairs that are still to be read
  pub wire_entries : Value → Parsed (List (Text × List Value))

-- A time to live of the server: one below zero is none.
ttl_of : Option ℤ → Option Duration
ttl_of none = none
ttl_of (some (ℤ.pos ms)) = some (from_millis ms)
ttl_of (some (ℤ.negsuc n)) = none

module _ {W A S T : Type 0} (env : Environment W A S T) (codec : CacheCodec) where
  pub cache_json : {B : Type 0} → (Value → Parsed B) → Value → Text → Call env B
  cache_json read request what = do response ← send env request; lift (decode read response what)

  pub cache_value : Value → Text → Call env (Option (List ℕ))
  cache_value request what = do
    response ← send env request
    payload ← lift (expect response (codes "CacheValue") what)
    lift (value_or_miss env.to_string payload)

  pub cache_values : Value → Text → Call env (List (Option (List ℕ)))
  cache_values request what = do
    response ← send env request
    payload ← lift (expect response (codes "CacheValues") what)
    lift (values_or_misses env.to_string what payload)

  -- `send(…).map(|_| ())`.
  forget : Value → Call env (Unit {0})
  forget request = do _ ← send env request; pure tt

  cache_ping : Call env (Unit {0})
  cache_ping = forget (tagged (codes "Cache") (string (codes "Ping")))

  pub cache_get : Text → Text → Call env (Option (List ℕ))
  cache_get namespace key = cache_value (op (codes "Get") (ns_key namespace key)) (codes "Get")

  -- The body of a write: the value and its time to live.
  abbrev written : Text → Text → List ℕ → Option Duration → Fields
  written namespace key value ttl =
      insert_field (codes "ttl_ms") (ttl_value ttl)
        (insert_field (codes "value") (byte_list value) (ns_key namespace key))

  cache_set_ttl : Text → Text → List ℕ → Option Duration → Call env (Unit {0})
  unfolding forget
  cache_set_ttl namespace key value ttl =
      forget (op (codes "Set") (written namespace key value ttl))

  cache_set : Text → Text → List ℕ → Call env (Unit {0})
  unfolding cache_set_ttl
  cache_set namespace key value = cache_set_ttl namespace key value none

  cache_set_nx : Text → Text → List ℕ → Option Duration → Call env Bool
  cache_set_nx namespace key value ttl =
      cache_json (codec.bool_field (codes "set"))
        (op (codes "SetNx") (written namespace key value ttl)) (codes "SetNx")

  cache_delete : Text → Text → Call env Bool
  cache_delete namespace key =
      cache_json (codec.bool_field (codes "deleted")) (op (codes "Delete") (ns_key namespace key))
        (codes "Delete")

  cache_exists : Text → Text → Call env Bool
  cache_exists namespace key =
      cache_json (codec.bool_field (codes "exists")) (op (codes "Exists") (ns_key namespace key))
        (codes "Exists")

  cache_ttl : Text → Text → Call env (Option Duration)
  unfolding ttl_of
  cache_ttl namespace key = do
    ms ←
        cache_json (codec.optional_int_field (codes "ttl_ms"))
          (op (codes "Ttl") (ns_key namespace key)) (codes "Ttl")
    pure (ttl_of ms)

  cache_expire : Text → Text → Duration → Call env Bool
  cache_expire namespace key ttl =
      cache_json (codec.bool_field (codes "updated"))
        (op (codes "Expire")
          (insert_field (codes "ttl_ms") (num (millis ttl)) (ns_key namespace key)))
        (codes "Expire")

  cache_persist : Text → Text → Call env Bool
  cache_persist namespace key =
      cache_json (codec.bool_field (codes "persisted"))
        (op (codes "Persist") (ns_key namespace key)) (codes "Persist")

  cache_incr : Text → Text → ℤ → Call env ℤ
  cache_incr namespace key by_amount =
      cache_json (codec.int_field (codes "value"))
        (op (codes "Incr") (insert_field (codes "by") (int by_amount) (ns_key namespace key)))
        (codes "Incr")

  cache_clear_namespace : Text → Call env ℤ
  cache_clear_namespace namespace =
      cache_json (codec.int_field (codes "cleared"))
        (op (codes "ClearNamespace") (ns_body namespace)) (codes "ClearNamespace")

  cache_keys : Text → Option Text → Option ℕ → Call env (List CacheKeyInfo)
  cache_keys namespace pattern_text limit =
      cache_json codec.key_infos
        (op (codes "Keys") (
          insert_field (codes "limit") (or_null num limit)
            (insert_field (codes "pattern") (or_null string pattern_text) (ns_body namespace))))
        (codes "Keys")

  pub cache_mget : Text → List Text → Call env (List (Option (List ℕ)))
  cache_mget namespace keys =
      cache_values (op (codes "MGet") (keys_body namespace keys)) (codes "MGet")

  cache_mset : Text → List CacheEntry → Option Duration → Call env ℤ
  cache_mset namespace entries ttl =
      cache_json (codec.int_field (codes "set")) (entries_op (codes "MSet") namespace entries ttl)
        (codes "MSet")

  cache_set_if : Text → Text → List ℕ → SetCondition → CacheExpiry → Call env Bool
  cache_set_if namespace key value condition expiry =
      cache_json (codec.bool_field (codes "set"))
        (op (codes "SetIf") (
          insert_field (codes "expiry") (expiry_to_wire expiry) (
            insert_field (codes "condition") (condition_to_wire condition)
              (insert_field (codes "value") (byte_list value) (ns_key namespace key)))))
        (codes "SetIf")

  pub cache_get_del : Text → Text → Call env (Option (List ℕ))
  cache_get_del namespace key =
      cache_value (op (codes "GetDel") (ns_key namespace key)) (codes "GetDel")

  pub cache_get_set : Text → Text → List ℕ → Option Duration → Call env (Option (List ℕ))
  cache_get_set namespace key value ttl =
      cache_value (op (codes "GetSet") (written namespace key value ttl)) (codes "GetSet")

  pub cache_get_ex : Text → Text → CacheExpiry → Call env (Option (List ℕ))
  cache_get_ex namespace key expiry =
      cache_value
        (op (codes "GetEx")
          (insert_field (codes "expiry") (expiry_to_wire expiry) (ns_key namespace key)))
        (codes "GetEx")

  cache_append : Text → Text → List ℕ → Call env ℤ
  cache_append namespace key value =
      cache_json (codec.int_field (codes "length"))
        (op (codes "Append")
          (insert_field (codes "value") (byte_list value) (ns_key namespace key)))
        (codes "Append")
