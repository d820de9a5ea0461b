-- ===== src/Cache/Members.antt =====
-- cache.rs: the operations on lists, sets, hashes and streams.
pub mod Refusals
use tricoredb_sdk_rust.Act.{Act, lift, pure, raise, ◌>>=◌}
use tricoredb_sdk_rust.Common.{
  ℕ, Bool, not, List, [], ◌∷◌, ◌++◌, map, Option, none, some, Text, codes, is_empty, filter_option,
  utf8, unwrap_or, if◌then◌else◌,
}
use tricoredb_sdk_rust.Common.Int.{ℤ}
use tricoredb_sdk_rust.Environment.{Environment}
use tricoredb_sdk_rust.Failure.{Error, Result, ok, err, invalid, collect}
use tricoredb_sdk_rust.Json.{Value, Fields, null, string, array, num, insert_field, get}
use tricoredb_sdk_rust.Json.Maps.{or_null}
use tricoredb_sdk_rust.Wire.{byte_list, byte_lists, decode_byte_lists}
use tricoredb_sdk_rust.Client.{Call}
use tricoredb_sdk_rust.Cache.{int, CachePair, pair_to_wire, pair_of_wire, entries_of, ns_key, op}
use tricoredb_sdk_rust.Cache.Calls.{CacheCodec, cache_json, cache_value}

pub record StreamEntry : Type 0 where
  pub id : Text
  pub fields : List CachePair

-- `CachePair::from_text`.
pub from_text : List (Text × Text) → List CachePair
from_text = map λ p. record { pair_field = utf8 p.0; pair_value = utf8 p.1 }

module _ {W A S T : Type 0} (env : Environment W A S T) (codec : CacheCodec) where
  abbrev keyed_int : Text → Text → Fields → Call env ℤ
  keyed_int result_field variant body =
      cache_json env codec (codec.int_field result_field) (op variant body) variant

  abbrev keyed_bool : Text → Text → Fields → Call env Bool
  keyed_bool result_field variant body =
      cache_json env codec (codec.bool_field result_field) (op variant body) variant

  -- An operation on several byte strings, which may not be none.
  with_byte_lists : Text → Text → Text → Text → Text → List (List ℕ) → Call env ℤ
  with_byte_lists result_field variant name namespace key items = do
    sent ← lift (byte_lists items name)
    keyed_int result_field variant (insert_field name sent (ns_key namespace key))

  -- A field of a JSON reply, null if it is missing.
  abbrev field_or_null : Text → Value → Value
  field_or_null name v = unwrap_or (get v name) null

  pub cache_push : Text → Text → Text → List (List ℕ) → Call env ℤ
  unfolding with_byte_lists
  cache_push variant = with_byte_lists (codes "length") variant (codes "values")

  pub cache_lpush : Text → Text → List (List ℕ) → Call env ℤ
  unfolding cache_push
  cache_lpush = cache_push (codes "LPush")

  pub cache_rpush : Text → Text → List (List ℕ) → Call env ℤ
  unfolding cache_push
  cache_rpush = cache_push (codes "RPush")

  cache_lpop : Text → Text → Call env (Option (List ℕ))
  cache_lpop namespace key =
      cache_value env codec (op (codes "LPop") (ns_key namespace key)) (codes "LPop")

  cache_rpop : Text → Text → Call env (Option (List ℕ))
  cache_rpop namespace key =
      cache_value env codec (op (codes "RPop") (ns_key namespace key)) (codes "RPop")

  cache_lrange : Text → Text → ℤ → ℤ → Call env (List (List ℕ))
  cache_lrange namespace key start stop = do
    v ←
        cache_json env codec codec.any_value
          (op (codes "LRange") (
            insert_field (codes "stop") (int stop)
              (insert_field (codes "start") (int start) (ns_key namespace key))))
          (codes "LRange")
    lift (decode_byte_lists env.to_string (field_or_null (codes "values") v))

  cache_llen : Text → Text → Call env ℤ
  cache_llen namespace key = keyed_int (codes "length") (codes "LLen") (ns_key namespace key)

  cache_lindex : Text → Text → ℤ → Call env (Option (List ℕ))
  cache_lindex namespace key index =
      cache_value env codec
        (op (codes "LIndex") (insert_field (codes "index") (int index) (ns_key namespace key)))
        (codes "LIndex")

  pub cache_sadd : Text → Text → List (List ℕ) → Call env ℤ
  unfolding with_byte_lists
  cache_sadd = with_byte_lists (codes "added") (codes "SAdd") (codes "members")

  pub cache_srem : Text → Text → List (List ℕ) → Call env ℤ
  unfolding with_byte_lists
  cache_srem = with_byte_lists (codes "removed") (codes "SRem") (codes "members")

  cache_sismember : Text → Text → List ℕ → Call env Bool
  cache_sismember namespace key member =
      keyed_bool (codes "is_member") (codes "SIsMember")
        (insert_field (codes "member") (byte_list member) (ns_key namespace key))

  cache_scard : Text → Text → Call env ℤ
  cache_scard namespace key = keyed_int (codes "cardinality") (codes "SCard") (ns_key namespace key)

  cache_smembers : Text → Text → Call env (List (List ℕ))
  cache_smembers namespace key = do
    v ←
        cache_json env codec codec.any_value (op (codes "SMembers") (ns_key namespace key))
          (codes "SMembers")
    lift (decode_byte_lists env.to_string (field_or_null (codes "members") v))

  pub cache_hset : Text → Text → List CachePair → Call env ℤ
  cache_hset namespace key entries =
      if is_empty entries
      then raise (invalid (codes "`entries` must not be empty"))
      else keyed_int (codes "created") (codes "HSet")
          (insert_field (codes "entries") (array (map pair_to_wire entries)) (ns_key namespace key))

  pub cache_hset_text : Text → Text → List (Text × Text) → Call env ℤ
  unfolding cache_hset from_text
  cache_hset_text namespace key entries = cache_hset namespace key (from_text entries)

  cache_hget : Text → Text → List ℕ → Call env (Option (List ℕ))
  cache_hget namespace key field_bytes =
      cache_value env codec
        (op (codes "HGet")
          (insert_field (codes "field") (byte_list field_bytes) (ns_key namespace key)))
        (codes "HGet")

  pub cache_hdel : Text → Text → List (List ℕ) → Call env ℤ
  unfolding with_byte_lists
  cache_hdel = with_byte_lists (codes "deleted") (codes "HDel") (codes "fields")

  cache_hgetall : Text → Text → Call env (List CachePair)
  cache_hgetall namespace key = do
    v ←
        cache_json env codec codec.any_value (op (codes "HGetAll") (ns_key namespace key))
          (codes "HGetAll")
    lift (entries_of env.to_string (get v (codes "entries")))

  cache_hexists : Text → Text → List ℕ → Call env Bool
  cache_hexists namespace key field_bytes =
      keyed_bool (codes "exists") (codes "HExists")
        (insert_field (codes "field") (byte_list field_bytes) (ns_key namespace key))

  cache_hlen : Text → Text → Call env ℤ
  cache_hlen namespace key = keyed_int (codes "length") (codes "HLen") (ns_key namespace key)

  pub cache_xadd : Text → Text → List CachePair → Option Text → Call env Text
  cache_xadd namespace key fields id =
      if is_empty fields
      then raise (invalid (codes "`fields` must not be empty"))
      else cache_json env codec (codec.text_field (codes "id"))
          (op (codes "XAdd") (
            insert_field (codes "id") (or_null string (filter_option (λ i. not (is_empty i)) id)) (
              insert_field (codes "fields") (array (map pair_to_wire fields))
                (ns_key namespace key))))
          (codes "XAdd")

  pub cache_xadd_text : Text → Text → List (Text × Text) → Option Text → Call env Text
  unfolding cache_xadd
  cache_xadd_text namespace key fields id = cache_xadd namespace key (from_text fields) id

  cache_xlen : Text → Text → Call env ℤ
  cache_xlen namespace key = keyed_int (codes "length") (codes "XLen") (ns_key namespace key)

  entry_of : Text × List Value → Result StreamEntry
  entry_of (id, pairs) = elim (collect (pair_of_wire env.to_string) pairs) [
    | ok fields ↦ ok (record { id = id; fields = fields })
    | err e ↦ err e
  ]

  stream_entries : Value → Text → Call env (List StreamEntry)
  unfolding entry_of
  stream_entries request what = do
    entries ← cache_json env codec codec.wire_entries request what
    lift (collect entry_of entries)

  cache_xrange : Text → Text → Text → Text → Option ℕ → Call env (List StreamEntry)
  unfolding stream_entries
  cache_xrange namespace key start stop count =
      stream_entries
        (op (codes "XRange") (
          insert_field (codes "count") (or_null num count) (
            insert_field (codes "end") (string stop)
              (insert_field (codes "start") (string start) (ns_key namespace key)))))
        (codes "XRange")

  cache_xread : Text → Text → Text → Option ℕ → Call env (List StreamEntry)
  unfolding stream_entries
  cache_xread namespace key after count =
      stream_entries
        (op (codes "XRead") (
          insert_field (codes "count") (or_null num count)
            (insert_field (codes "after") (string after) (ns_key namespace key))))
        (codes "XRead")

  pub cache_xdel : Text → Text → List Text → Call env ℤ
  cache_xdel namespace key ids =
      if is_empty ids
      then raise (invalid (codes "`ids` must not be empty"))
      else keyed_int (codes "deleted") (codes "XDel")
          (insert_field (codes "ids") (array (map string ids)) (ns_key namespace key))

  cache_xtrim : Text → Text → ℕ → Call env ℤ
  cache_xtrim namespace key max_len =
      keyed_int (codes "trimmed") (codes "XTrim")
        (insert_field (codes "max_len") (num max_len) (ns_key namespace key))
