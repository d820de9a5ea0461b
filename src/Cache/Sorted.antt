-- ===== src/Cache/Sorted.antt =====
-- cache.rs: the operations on sorted sets. A score is the bit pattern of its `f64`.
pub mod Refusals
mod Tests
use tricoredb_sdk_rust.Act.{Act, lift, ◌>>=◌}
use tricoredb_sdk_rust.Common.{
  ℕ, Bool, true, false, List, [], ◌∷◌, ◌++◌, Option, none, some, Text, codes, is_empty, unwrap_or,
  if◌then◌else◌,
}
use tricoredb_sdk_rust.Common.Int.{ℤ}
use tricoredb_sdk_rust.Environment.{Environment}
use tricoredb_sdk_rust.Failure.{Error, Result, ok, err, invalid, protocol_error, ok_or, collect}
use tricoredb_sdk_rust.Json.{
  Value, Fields, null, bool, string, array, as_array, num, field, end, obj, insert_field, get,
}
use tricoredb_sdk_rust.Options.{Duration}
use tricoredb_sdk_rust.Response.{Parsed}
use tricoredb_sdk_rust.Wire.{byte_list, byte_lists, decode_byte_list, decode_byte_lists}
use tricoredb_sdk_rust.Client.{Call}
use tricoredb_sdk_rust.Cache.{int, millis, score_value, ns_key, op}
use tricoredb_sdk_rust.Cache.Calls.{CacheCodec, cache_json}

pub record ScoredMember : Type 0 where
  pub score : ℕ
  pub member : List ℕ

pub record ScoreBound : Type 0 where
  pub bound : ℕ
  pub exclusive : Bool

inclusive : ℕ → ScoreBound
inclusive bound = record { bound = bound; exclusive = false }

exclusive_of : ℕ → ScoreBound
exclusive_of bound = record { bound = bound; exclusive = true }

-- The bit patterns of `-f64::MAX` and `f64::MAX`.
lowest : ScoreBound
unfolding inclusive
lowest = inclusive 0xffefffffffffffff

highest : ScoreBound
unfolding inclusive
highest = inclusive 0x7fefffffffffffff

pub record ZAddCounts : Type 0 where
  pub added : ℤ
  pub updated : ℤ

-- The readers that serde derives for the replies, `Value::as_f64`, and how a float is printed.
pub record SortedCodec : Type 0 where
  pub score_field : Value → Parsed ℕ
  pub optional_score : Value → Parsed (Option ℕ)
  pub zadd_counts : Value → Parsed ZAddCounts
  pub as_f64 : Value → Option ℕ
  pub show_float : ℕ → Text

zrange_op : Text → Text → ℤ → ℤ → Bool → Bool → Value
zrange_op namespace key start stop rev with_scores = op (codes "ZRange") (
    insert_field (codes "with_scores") (bool with_scores) (
      insert_field (codes "rev") (bool rev) (
        insert_field (codes "stop") (int stop)
          (insert_field (codes "start") (int start) (ns_key namespace key)))))

page : Option (ℕ × ℕ) → Value
page none = null
page (some (offset, count)) = array (num offset ∷ num count ∷ [])

-- What is built around a score, unless the score is refused.
with_score : (Value → Value) → Result Value → Result Value
with_score build (ok v) = ok (build v)
with_score build (err e) = err e

-- A request with two bounds, unless one of them is refused; the lower one is looked at first.
between : (Value → Value → Value) → Result Value → Result Value → Result Value
between build (err e) high = err e
between build (ok low) (err e) = err e
between build (ok low) (ok high) = ok (build low high)

module _ {W A S T : Type 0} (env : Environment W A S T) (codec : CacheCodec)
    (sorted : SortedCodec) where
  -- `ScoreBound::to_wire`.
  bound_to_wire : ScoreBound → Text → Result Value
  unfolding with_score
  bound_to_wire b name =
      with_score
        (λ v. obj (field (codes "exclusive") (bool b.exclusive) (field (codes "value") v end)))
        (score_value sorted.show_float b.bound name)

  scored_to_wire : ScoredMember → Result Value
  unfolding with_score
  scored_to_wire m =
      with_score
        (λ v. obj (field (codes "member") (byte_list m.member) (field (codes "score") v end)))
        (score_value sorted.show_float m.score (codes "score"))

  no_members : Text → Error
  no_members what =
      protocol_error (codes "malformed " ++ (what ++ codes " payload: no scored members"))

  scored_of : Text → Value → Result ScoredMember
  scored_of what entry =
      let bytes = decode_byte_list env.to_string (unwrap_or (get entry (codes "member")) null) in
      elim (ok_or (score_at (get entry (codes "score"))) (no_members what)) [
        | ok s ↦ elim bytes [ ok m ↦ ok (record { score = s; member = m }) | err e ↦ err e ]
        | err e ↦ err e
      ]
    where
      score_at : Option Value → Option ℕ
      score_at none = none
      score_at (some v) = sorted.as_f64 v

  array_of : Option Value → Option (List Value)
  array_of none = none
  array_of (some v) = as_array v

  scored_members : Text → Value → Result (List ScoredMember)
  unfolding scored_of array_of no_members
  scored_members what v = elim (ok_or (array_of (get v (codes "members"))) (no_members what)) [
    | ok entries ↦ collect (scored_of what) entries
    | err e ↦ err e
  ]

  plain_members : Value → Result (List (List ℕ))
  plain_members v = decode_byte_lists env.to_string (unwrap_or (get v (codes "members")) null)

  pub cache_zadd : Text → Text → List ScoredMember → Call env ZAddCounts
  unfolding scored_to_wire
  cache_zadd namespace key members = do
    _ ←
        lift
          (if is_empty members then err (invalid (codes "`members` must not be empty")) else ok tt)
    sent ← lift (collect scored_to_wire members)
    cache_json env codec sorted.zadd_counts
        (op (codes "ZAdd") (insert_field (codes "members") (array sent) (ns_key namespace key)))
        (codes "ZAdd")

  cache_zrem : Text → Text → List (List ℕ) → Call env ℤ
  cache_zrem namespace key members = do
    sent ← lift (byte_lists members (codes "members"))
    cache_json env codec (codec.int_field (codes "removed"))
        (op (codes "ZRem") (insert_field (codes "members") sent (ns_key namespace key)))
        (codes "ZRem")

  cache_zscore : Text → Text → List ℕ → Call env (Option ℕ)
  cache_zscore namespace key member =
      cache_json env codec sorted.optional_score
        (op (codes "ZScore")
          (insert_field (codes "member") (byte_list member) (ns_key namespace key)))
        (codes "ZScore")

  cache_zcard : Text → Text → Call env ℤ
  cache_zcard namespace key =
      cache_json env codec (codec.int_field (codes "cardinality"))
        (op (codes "ZCard") (ns_key namespace key)) (codes "ZCard")

  cache_zrank : Text → Text → List ℕ → Bool → Call env (Option ℤ)
  cache_zrank namespace key member rev =
      cache_json env codec (codec.optional_int_field (codes "rank"))
        (op (codes "ZRank") (
          insert_field (codes "rev") (bool rev)
            (insert_field (codes "member") (byte_list member) (ns_key namespace key))))
        (codes "ZRank")

  cache_zrange : Text → Text → ℤ → ℤ → Bool → Call env (List (List ℕ))
  unfolding zrange_op plain_members
  cache_zrange namespace key start stop rev = do
    v ←
        cache_json env codec codec.any_value (zrange_op namespace key start stop rev false)
          (codes "ZRange")
    lift (plain_members v)

  cache_zrange_with_scores : Text → Text → ℤ → ℤ → Bool → Call env (List ScoredMember)
  unfolding zrange_op scored_members
  cache_zrange_with_scores namespace key start stop rev = do
    v ←
        cache_json env codec codec.any_value (zrange_op namespace key start stop rev true)
          (codes "ZRange")
    lift (scored_members (codes "ZRange") v)

  pub cache_zincr_by : Text → Text → List ℕ → ℕ → Call env ℕ
  cache_zincr_by namespace key member by_score = do
    v ← lift (score_value sorted.show_float by_score (codes "by"))
    cache_json env codec sorted.score_field
        (op (codes "ZIncrBy") (
          insert_field (codes "by") v
            (insert_field (codes "member") (byte_list member) (ns_key namespace key))))
        (codes "ZIncrBy")

  zrange_by_score_op :
      Text → Text → ScoreBound → ScoreBound → Bool → Bool → Option (ℕ × ℕ) → Result Value
  unfolding bound_to_wire page between
  zrange_by_score_op namespace key low high rev with_scores limit =
      between
        (λ lo hi. op (codes "ZRangeByScore") (
          insert_field (codes "limit") (page limit) (
            insert_field (codes "with_scores") (bool with_scores) (
              insert_field (codes "rev") (bool rev) (
                insert_field (codes "max") hi
                  (insert_field (codes "min") lo (ns_key namespace key)))))))
        (bound_to_wire low (codes "min")) (bound_to_wire high (codes "max"))

  pub cache_zrange_by_score :
      Text → Text → ScoreBound → ScoreBound → Bool → Option (ℕ × ℕ) → Call env (List (List ℕ))
  unfolding zrange_by_score_op plain_members
  cache_zrange_by_score namespace key low high rev limit = do
    request ← lift (zrange_by_score_op namespace key low high rev false limit)
    v ← cache_json env codec codec.any_value request (codes "ZRangeByScore")
    lift (plain_members v)

  pub cache_zrange_by_score_with_scores :
      Text → Text → ScoreBound → ScoreBound → Bool → Option (ℕ × ℕ) → Call env (List ScoredMember)
  unfolding zrange_by_score_op scored_members
  cache_zrange_by_score_with_scores namespace key low high rev limit = do
    request ← lift (zrange_by_score_op namespace key low high rev true limit)
    v ← cache_json env codec codec.any_value request (codes "ZRangeByScore")
    lift (scored_members (codes "ZRangeByScore") v)
