-- ===== src/Cache/Fresh.antt =====
-- cache.rs: values that may be served stale, comparisons, and deadlines.
use tricoredb_sdk_rust.Act.{lift, pure, ◌>>=◌}
use tricoredb_sdk_rust.Common.{
  ℕ, Bool, List, ◌++◌, Option, none, some, Text, codes, text_eq, utf8, if◌then◌else◌,
}
use tricoredb_sdk_rust.Common.Int.{ℤ}
use tricoredb_sdk_rust.Environment.{Environment}
use tricoredb_sdk_rust.Failure
use tricoredb_sdk_rust.Failure.{Error, Result, ok, err, protocol_error}
use tricoredb_sdk_rust.Json.{Value, num, string, insert_field}
use tricoredb_sdk_rust.Json.Maps.{or_null}
use tricoredb_sdk_rust.Options.{Duration}
use tricoredb_sdk_rust.Response.{Parsed}
use tricoredb_sdk_rust.Wire.{byte_list}
use tricoredb_sdk_rust.Client.{Call}
use tricoredb_sdk_rust.Client.Sending.Requests.{send_unit}
use tricoredb_sdk_rust.Cache.{int, millis, ttl_value, ns_key, op, CacheEntry, entries_op}
use tricoredb_sdk_rust.Cache.Calls.{CacheCodec, cache_json}
use tricoredb_sdk_rust.Cache.Hex.{decode_hex}

pub data FreshState : Type 0 where
  fresh stale missing miss : FreshState

pub record FreshRead : Type 0 where
  pub state : FreshState
  pub value : Option (List ℕ)
  pub refresh : Bool
  pub lease : Bool
  pub retry_after_ms : Option ℕ

pub record WarmCounts : Type 0 where
  pub written : ℤ
  pub already_cached : ℤ

pub record ExpireAtOutcome : Type 0 where
  pub updated : Bool
  pub deleted : Bool

pub record CompareAndSwap : Type 0 where
  pub swapped : Bool
  pub current : Option (List ℕ)
  pub current_is_binary : Bool

-- The replies as serde reads them.
pub record FreshWire : Type 0 where
  pub state_name : Text
  pub value_text : Option Text
  pub value_hex : Option Text
  pub refresh : Bool
  pub lease : Bool
  pub retry_after_ms : Option ℕ

pub record SwapWire : Type 0 where
  pub swapped : Bool
  pub current_text : Option Text
  pub current_is_binary : Bool

pub record FreshCodec : Type 0 where
  pub fresh_wire : Value → Parsed FreshWire
  pub swap_wire : Value → Parsed SwapWire
  pub warm_counts : Value → Parsed WarmCounts
  pub expire_at : Value → Parsed ExpireAtOutcome

abbrev unknown_state : Text → Error
unknown_state name =
    protocol_error (codes "GetFresh answered with the unknown state `" ++ (name ++ codes "`"))

pub state_of : Text → Result FreshState
state_of name =
    if text_eq name (codes "fresh")
    then ok FreshState.fresh
    else if text_eq name (codes "stale")
    then ok FreshState.stale
    else if text_eq name (codes "missing")
    then ok FreshState.missing
    else if text_eq name (codes "miss")
    then ok FreshState.miss
    else err (unknown_state name)

some_bytes : Result (List ℕ) → Result (Option (List ℕ))
some_bytes (ok bytes) = ok (some bytes)
some_bytes (err e) = err e

-- A value that is text arrives as text, any other as hexadecimal.
pub value_of : Option Text → Option Text → Result (Option (List ℕ))
unfolding some_bytes
value_of (some text) hex = ok (some (utf8 text))
value_of none (some hex) = some_bytes (decode_hex hex)
value_of none none = ok none

pub read_of : FreshWire → Result FreshRead
read_of w = Failure.◌>>=◌ (state_of w.state_name) λ state.
    Failure.◌>>=◌ (value_of w.value_text w.value_hex) λ value. ok (record {
      state = state;
      value = value;
      refresh = w.refresh;
      lease = w.lease;
      retry_after_ms = w.retry_after_ms;
    })

into_bytes : Option Text → Option (List ℕ)
into_bytes none = none
into_bytes (some text) = some (utf8 text)

-- The request of a fresh read.
abbrev pub fresh_request : Text → Text → Text → Duration → Value
fresh_request namespace key owner lease = op (codes "GetFresh") (
    insert_field (codes "lease_ms") (num (millis lease))
      (insert_field (codes "owner") (string owner) (ns_key namespace key)))

module _ {W A S T : Type 0} (env : Environment W A S T) (codec : CacheCodec)
    (fresh_codec : FreshCodec) where
  cache_warm : Text → List CacheEntry → Option Duration → Call env WarmCounts
  cache_warm namespace entries ttl =
      cache_json env codec fresh_codec.warm_counts (entries_op (codes "Warm") namespace entries ttl)
        (codes "Warm")

  cache_compare_and_swap :
      Text → Text → Option (List ℕ) → Option (List ℕ) → Option Duration → Call env CompareAndSwap
  unfolding into_bytes
  cache_compare_and_swap namespace key expected value ttl = do
    out ←
        cache_json env codec fresh_codec.swap_wire
          (op (codes "CompareAndSwap") (
            insert_field (codes "ttl_ms") (ttl_value ttl) (
              insert_field (codes "value") (or_null byte_list value) (
                insert_field (codes "expected") (or_null byte_list expected)
                  (ns_key namespace key)))))
          (codes "CompareAndSwap")
    pure (record {
      swapped = out.swapped;
      current = into_bytes out.current_text;
      current_is_binary = out.current_is_binary;
    })

  cache_expire_at : Text → Text → ℤ → Call env ExpireAtOutcome
  cache_expire_at namespace key at_ms =
      cache_json env codec fresh_codec.expire_at
        (op (codes "ExpireAt") (insert_field (codes "at_ms") (int at_ms) (ns_key namespace key)))
        (codes "ExpireAt")

  cache_set_fresh : Text → Text → List ℕ → Duration → Option Duration → Call env ℤ
  cache_set_fresh namespace key value fresh_for ttl =
      cache_json env codec (codec.int_field (codes "freshUntilMs"))
        (op (codes "SetFresh") (
          insert_field (codes "ttl_ms") (ttl_value ttl) (
            insert_field (codes "fresh_ms") (num (millis fresh_for))
              (insert_field (codes "value") (byte_list value) (ns_key namespace key)))))
        (codes "SetFresh")

  pub cache_get_fresh : Text → Text → Text → Duration → Call env FreshRead
  cache_get_fresh namespace key owner lease = do
    out ←
        cache_json env codec fresh_codec.fresh_wire (fresh_request namespace key owner lease)
          (codes "GetFresh")
    lift (read_of out)

  cache_set_missing : Text → Text → Duration → Call env (Unit {0})
  cache_set_missing namespace key ttl = send_unit env (
      op (codes "SetMissing")
        (insert_field (codes "ttl_ms") (num (millis ttl)) (ns_key namespace key)))
