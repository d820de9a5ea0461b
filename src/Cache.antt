-- ===== src/Cache.antt =====
-- cache.rs: the data of the cache module, the bodies of its operations, and how their replies are
-- read. An operation's body is a JSON map, and its own name tags it inside `Cache`.
pub mod Hex
pub mod Entries
pub mod Readings
pub mod Calls
pub mod Members
pub mod Sorted
pub mod Locks
pub mod Structures
pub mod Fresh
pub mod Batches
pub mod Channels
pub mod Tests
use tricoredb_sdk_rust.Common.{
  ℕ, ◌+◌, ◌-◌, ◌*◌, ◌/◌, ◌%◌, ◌^◌, min, Bool, true, false, not, ◌||◌, List, [], ◌∷◌, ◌++◌, map,
  Option, none, some, Text, codes, leb, ltb, ◌==◌, ◌&&◌, all, length, filter_option, if◌then◌else◌,
}
use tricoredb_sdk_rust.Common.Int.{ℤ}
use tricoredb_sdk_rust.Environment.{Environment}
use tricoredb_sdk_rust.Failure.{
  Error, Result, ok, err, invalid, protocol_error, ok_or, collect, ◌>>=◌,
}
use tricoredb_sdk_rust.Json.{
  Value, Number, Fields, field, end, null, string, obj, array, tagged, num, number, get, as_array,
  as_str, insert_field, is_finite,
}
use tricoredb_sdk_rust.Options.{Duration}
use tricoredb_sdk_rust.Response.{Response, Parsed, expect, decode, decode_variant}
use tricoredb_sdk_rust.Wire.{byte_list, decode_byte_list, decode_pair}
use tricoredb_sdk_rust.Client.{Call}
use tricoredb_sdk_rust.Client.Sending.{send}

-- `json!` of an `i64`; `neg_int n` is the number below zero by `n + 1`.
abbrev pub int : ℤ → Value
int (ℤ.pos n) = num n
int (ℤ.negsuc n) = number (Number.neg_int n)

pub record CachePair : Type 0 where
  pub pair_field : List ℕ
  pub pair_value : List ℕ

-- `CachePair::to_wire`.
unfoldable pub pair_to_wire : CachePair → Value
pair_to_wire p = array (byte_list p.pair_field ∷ byte_list p.pair_value ∷ [])

pub record CacheEntry : Type 0 where
  pub entry_key : Text
  pub entry_value : List ℕ

-- `CacheEntry::to_wire`.
pub entry_to_wire : CacheEntry → Value
entry_to_wire e =
    obj (
      field (codes "key") (string e.entry_key)
        (field (codes "value") (byte_list e.entry_value) end))

pub data SetCondition : Type 0 where
  always if_absent if_present : SetCondition

pub condition_to_wire : SetCondition → Value
condition_to_wire always = string (codes "Always")
condition_to_wire if_absent = string (codes "IfAbsent")
condition_to_wire if_present = string (codes "IfPresent")

pub data CacheExpiry : Type 0 where
  keep clear : CacheExpiry
  set : Duration → CacheExpiry

-- Whole milliseconds, at most `i64::MAX`.
pub millis : Duration → ℕ
millis d = min (d / 1000000) (2 ^ 63 - 1)

pub expiry_to_wire : CacheExpiry → Value
expiry_to_wire keep = string (codes "Keep")
expiry_to_wire (set ttl) = tagged (codes "Set") (tagged (codes "ttl_ms") (num (millis ttl)))
expiry_to_wire clear = string (codes "Clear")

-- No time to live, and one of zero, are sent as null.
millis_or_null : Option Duration → Value
millis_or_null none = null
millis_or_null (some t) = num (millis t)

pub ttl_value : Option Duration → Value
unfolding millis_or_null millis
ttl_value ttl = millis_or_null (filter_option (λ t. not (t == 0)) ttl)

-- How a float is printed is a parameter: it is read in the message alone.
abbrev pub not_finite_error : (ℕ → Text) → ℕ → Text → Error
not_finite_error show_float score name =
    invalid (codes "`" ++ (name ++ (codes "` must be a finite number, got " ++ show_float score)))

unfoldable pub score_value : (ℕ → Text) → ℕ → Text → Result Value
score_value show_float score name =
    if is_finite score
    then ok (number (Number.float score))
    else err (not_finite_error show_float score name)

pub ns_body : Text → Fields
ns_body namespace = insert_field (codes "namespace") (string namespace) end

pub ns_key : Text → Text → Fields
unfolding ns_body
ns_key namespace key = insert_field (codes "key") (string key) (ns_body namespace)

pub keys_body : Text → List Text → Fields
unfolding ns_body
keys_body namespace keys = insert_field (codes "keys") (array (map string keys)) (ns_body namespace)

pub op : Text → Fields → Value
op variant body = tagged (codes "Cache") (tagged variant (obj body))

pub entries_op : Text → Text → List CacheEntry → Option Duration → Value
unfolding op
entries_op variant namespace entries ttl = op variant (
    insert_field (codes "ttl_ms") (ttl_value ttl)
      (insert_field (codes "entries") (array (map entry_to_wire entries)) (ns_body namespace)))

-- What one operation of a pipeline answered.
pub data CacheReply : Type 0 where
  answered : Text → Value → CacheReply
  failed_with : Text → CacheReply

module _ (to_string : Value → Text) where
  text_of : Value → Text
  text_of (Value.string t) = t
  text_of v = to_string v

  reply_data : Option Value → Result CacheReply
  reply_data (some data_value) =
      let (kind, payload) = decode_variant data_value in ok (answered kind payload)
  reply_data none = err (protocol_error (codes "a pipeline result is neither `ok` nor `error`"))

  reply_or : Option Value → Option Value → Result CacheReply
  reply_or (some error) data_value = ok (failed_with (text_of error))
  reply_or none data_value = reply_data data_value

  -- `CacheReply::from_wire`.
  pub from_wire : Value → Result CacheReply
  unfolding reply_or reply_data text_of
  from_wire value = reply_or (get value (codes "error")) (get value (codes "ok"))

  -- The payload of a `CacheValue`: null is a miss.
  unfoldable pub value_or_miss : Value → Result (Option (List ℕ))
  value_or_miss Value.null = ok none
  value_or_miss v = do bs ← decode_byte_list to_string v; ok (some bs)

  -- The payload of a `CacheValues`: one value for each position.
  unfoldable pub values_or_misses : Text → Value → Result (List (Option (List ℕ)))
  values_or_misses what v = do
    items ←
        ok_or (as_array v)
          (protocol_error (codes "malformed " ++ (what ++ codes " payload: not a list")))
    collect value_or_miss items

  unfoldable pub pair_of_wire : Value → Result CachePair
  pair_of_wire v = do
    p ← decode_pair to_string v
    ok (record { pair_field = p.0; pair_value = p.1 })

  -- The payload of `HGetAll`.
  unfoldable pub entries_of : Option Value → Result (List CachePair)
  entries_of none = err (protocol_error (codes "malformed HGetAll payload: no entries"))
  entries_of (some v) = do
    items ← ok_or (as_array v) (protocol_error (codes "malformed HGetAll payload: no entries"))
    collect pair_of_wire items
