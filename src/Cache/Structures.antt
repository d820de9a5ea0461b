-- ===== src/Cache/Structures.antt =====
-- cache.rs: bitmaps, counters of distinct elements, and the further operations on lists, sets and
-- hashes.
use tricoredb_sdk_rust.Act.{lift, pure, ◌>>=◌}
use tricoredb_sdk_rust.Common.{
  ℕ, Bool, List, [], ◌∷◌, Option, none, some, Text, codes, unwrap_or, ltb,
}
use tricoredb_sdk_rust.Common.Int.{ℤ}
use tricoredb_sdk_rust.Environment.{Environment}
use tricoredb_sdk_rust.Json.{Value, Fields, null, bool, string, array, num, insert_field, get}
use tricoredb_sdk_rust.Json.Maps.{or_null, texts}
use tricoredb_sdk_rust.Options.{Duration}
use tricoredb_sdk_rust.Response.{Parsed}
use tricoredb_sdk_rust.Wire.{byte_list, byte_lists, decode_byte_lists}
use tricoredb_sdk_rust.Client.{Call}
use tricoredb_sdk_rust.Client.Sending.Requests.{send_unit}
use tricoredb_sdk_rust.Cache.{int, millis, ns_body, ns_key, keys_body, op}
use tricoredb_sdk_rust.Cache.Calls.{CacheCodec, cache_json, cache_value, cache_values}

pub data ListEnd : Type 0 where
  left right : ListEnd

list_end_json : ListEnd → Value
list_end_json left = string (codes "Left")
list_end_json right = string (codes "Right")

pub data BitOpKind : Type 0 where
  and or xor not : BitOpKind

bit_op_json : BitOpKind → Value
bit_op_json BitOpKind.and = string (codes "And")
bit_op_json BitOpKind.or = string (codes "Or")
bit_op_json BitOpKind.xor = string (codes "Xor")
bit_op_json BitOpKind.not = string (codes "Not")

pub record TrimCounts : Type 0 where
  pub length : ℤ
  pub removed : ℤ

range_value : Option (ℤ × ℤ) → Value
range_value none = null
range_value (some (first, last)) = array (int first ∷ int last ∷ [])

-- The readers that serde derives: of a `u8` under a name, and of the counts of a trimming.
pub record StructuresCodec : Type 0 where
  pub small_field : Text → Value → Parsed ℕ
  pub trim_counts : Value → Parsed TrimCounts

-- What a blocking pop answered: a key and a value, unless one of them is missing.
pub popped : (List ℕ → Text) → List (Option (List ℕ)) → Option (Text × List ℕ)
popped lossy (some key ∷ some value ∷ rest) = some (lossy key, value)
popped lossy _ = none

-- The request of a blocking pop.
abbrev pub pop_request : Text → Text → List Text → Duration → Value
pop_request variant namespace keys timeout =
    op variant (insert_field (codes "timeout_ms") (num (millis timeout)) (keys_body namespace keys))

module _ {W A S T : Type 0} (env : Environment W A S T) (codec : CacheCodec)
    (structures : StructuresCodec) where
  -- A `u8` of the reply, as a bit.
  cache_bit : Text → Value → Text → Call env Bool
  cache_bit name request what = do
    bit ← cache_json env codec (structures.small_field name) request what
    pure (ltb 0 bit)

  cache_set_bit : Text → Text → ℕ → Bool → Call env Bool
  unfolding cache_bit
  cache_set_bit namespace key offset value =
      cache_bit (codes "previous")
        (op (codes "SetBit") (
          insert_field (codes "value") (bool value)
            (insert_field (codes "offset") (num offset) (ns_key namespace key))))
        (codes "SetBit")

  cache_get_bit : Text → Text → ℕ → Call env Bool
  unfolding cache_bit
  cache_get_bit namespace key offset =
      cache_bit (codes "bit")
        (op (codes "GetBit") (insert_field (codes "offset") (num offset) (ns_key namespace key)))
        (codes "GetBit")

  cache_bit_count : Text → Text → Option (ℤ × ℤ) → Call env ℤ
  unfolding range_value
  cache_bit_count namespace key range =
      cache_json env codec (codec.int_field (codes "count"))
        (op (codes "BitCount")
          (insert_field (codes "range") (range_value range) (ns_key namespace key)))
        (codes "BitCount")

  cache_bit_pos : Text → Text → Bool → Option (ℤ × ℤ) → Call env ℤ
  unfolding range_value
  cache_bit_pos namespace key bit range =
      cache_json env codec (codec.int_field (codes "position"))
        (op (codes "BitPos") (
          insert_field (codes "range") (range_value range)
            (insert_field (codes "bit") (bool bit) (ns_key namespace key))))
        (codes "BitPos")

  cache_bit_op : Text → BitOpKind → Text → List Text → Call env ℤ
  unfolding bit_op_json
  cache_bit_op namespace kind dest keys =
      cache_json env codec (codec.int_field (codes "length"))
        (op (codes "BitOp") (
          insert_field (codes "keys") (texts keys) (
            insert_field (codes "dest") (string dest)
              (insert_field (codes "op") (bit_op_json kind) (ns_body namespace)))))
        (codes "BitOp")

  cache_pf_add : Text → Text → List (List ℕ) → Call env Bool
  cache_pf_add namespace key elements = do
    sent ← lift (byte_lists elements (codes "elements"))
    cache_json env codec (codec.bool_field (codes "changed"))
        (op (codes "PfAdd") (insert_field (codes "elements") sent (ns_key namespace key)))
        (codes "PfAdd")

  cache_pf_count : Text → List Text → Call env ℤ
  cache_pf_count namespace keys =
      cache_json env codec (codec.int_field (codes "count"))
        (op (codes "PfCount") (keys_body namespace keys)) (codes "PfCount")

  cache_pf_merge : Text → Text → List Text → Call env (Unit {0})
  cache_pf_merge namespace dest sources = send_unit env (
      op (codes "PfMerge") (
        insert_field (codes "sources") (texts sources)
          (insert_field (codes "dest") (string dest) (ns_body namespace))))

  cache_lmove : Text → Text → Text → ListEnd → ListEnd → Call env (Option (List ℕ))
  unfolding list_end_json
  cache_lmove namespace source destination from to =
      cache_value env codec
        (op (codes "LMove") (
          insert_field (codes "to") (list_end_json to) (
            insert_field (codes "from") (list_end_json from) (
              insert_field (codes "destination") (string destination)
                (insert_field (codes "source") (string source) (ns_body namespace))))))
        (codes "LMove")

  cache_ltrim : Text → Text → ℤ → ℤ → Call env TrimCounts
  cache_ltrim namespace key start stop =
      cache_json env codec structures.trim_counts
        (op (codes "LTrim") (
          insert_field (codes "stop") (int stop)
            (insert_field (codes "start") (int start) (ns_key namespace key))))
        (codes "LTrim")

  cache_blocking_pop : Text → Text → List Text → Duration → Call env (Option (Text × List ℕ))
  unfolding popped
  cache_blocking_pop variant namespace keys timeout = do
    values ← cache_values env codec (pop_request variant namespace keys timeout) variant
    pure (popped env.from_utf8_lossy values)

  pub cache_blpop : Text → List Text → Duration → Call env (Option (Text × List ℕ))
  unfolding cache_blocking_pop
  cache_blpop namespace keys timeout = cache_blocking_pop (codes "BLPop") namespace keys timeout

  pub cache_brpop : Text → List Text → Duration → Call env (Option (Text × List ℕ))
  unfolding cache_blocking_pop
  cache_brpop namespace keys timeout = cache_blocking_pop (codes "BRPop") namespace keys timeout

  cache_members : Text → Fields → Call env (List (List ℕ))
  cache_members variant body = do
    v ← cache_json env codec codec.any_value (op variant body) variant
    lift (decode_byte_lists env.to_string (unwrap_or (get v (codes "members")) null))

  cache_sunion : Text → List Text → Call env (List (List ℕ))
  unfolding cache_members
  cache_sunion namespace keys = cache_members (codes "SUnion") (keys_body namespace keys)

  cache_sinter : Text → List Text → Call env (List (List ℕ))
  unfolding cache_members
  cache_sinter namespace keys = cache_members (codes "SInter") (keys_body namespace keys)

  cache_sdiff : Text → List Text → Call env (List (List ℕ))
  unfolding cache_members
  cache_sdiff namespace keys = cache_members (codes "SDiff") (keys_body namespace keys)

  cache_srand_member : Text → Text → Option ℤ → Call env (List (List ℕ))
  unfolding cache_members
  cache_srand_member namespace key count =
      cache_members (codes "SRandMember")
        (insert_field (codes "count") (or_null int count) (ns_key namespace key))

  cache_hincr_by : Text → Text → List ℕ → ℤ → Call env ℤ
  cache_hincr_by namespace key hash_field by_amount =
      cache_json env codec (codec.int_field (codes "value"))
        (op (codes "HIncrBy") (
          insert_field (codes "by") (int by_amount)
            (insert_field (codes "field") (byte_list hash_field) (ns_key namespace key))))
        (codes "HIncrBy")
