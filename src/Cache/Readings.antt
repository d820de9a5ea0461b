-- ===== src/Cache/Readings.antt =====
-- How the replies of the cache are read: a miss and an empty value differ.
use tricoredb_sdk_rust.Common.{
  ℕ, ◌≤◌, ◌<◌, ◌*◌, ◌/◌, ◌^◌, ◌+◌, ◌-◌, min, ◌≡◌, ◌↔◌, ◌⊎◌, refl, ap, subst, List, [], ◌∷◌, Option,
  none, some, Text, map, All, arith,
}
use tricoredb_sdk_rust.Failure.{Result, ok, collect, >>=-eq-ok, ◌>>=◌, ok-injective}
use tricoredb_sdk_rust.Json.{Value, array, num, to_list-of_list}
use tricoredb_sdk_rust.Options.{Duration}
use tricoredb_sdk_rust.Wire.{byte_list, decode_byte_list}
use tricoredb_sdk_rust.Wire.RoundTrip.{
  IsBytes, decode_byte_list-byte_list, decode_byte_list-eq-ok, decode_pair_iff,
}
use tricoredb_sdk_rust.Cache.{
  CachePair, pair_to_wire, value_or_miss, values_or_misses, pair_of_wire, entries_of, ttl_value,
  millis_or_null, millis,
}

abbrev pub IsBytesPair : CachePair → Type 0
IsBytesPair p = IsBytes p.pair_field × IsBytes p.pair_value

-- What the server sends for an optional value.
abbrev pub optional_value : Option (List ℕ) → Value
optional_value none = Value.null
optional_value (some bs) = byte_list bs

abbrev pub OptionalBytes : Option (List ℕ) → Type 0
OptionalBytes none = Unit
OptionalBytes (some bs) = IsBytes bs

-- Reading back a list that was sent element by element.
pub collect-map :
    {X : Type 0} (read : Value → Result X) (write : X → Value) (Fine : X → Type 0) (xs : List X)
    → ((x : X) → Fine x → read (write x) ≡ ok x)
    → All Fine xs
    → collect read (map write xs) ≡ ok xs
unfolding collect
collect-map read write Fine [] each h = refl
collect-map read write Fine (x ∷ xs) each h =
    rw (each x h.0, collect-map read write Fine xs each h.1) refl

module _ (to_string : Value → Text) where
  value_or_miss-optional_value :
      (o : Option (List ℕ)) → OptionalBytes o → value_or_miss to_string (optional_value o) ≡ ok o
  unfolding value_or_miss byte_list
  value_or_miss-optional_value none h = refl
  value_or_miss-optional_value (some bs) h =
      ap (λ r. r >>= λ b. ok (some b)) (decode_byte_list-byte_list to_string bs h)

  read_bytes :
      (v : Value) (o : Option (List ℕ))
      → (decode_byte_list to_string v >>= λ bs. ok (some bs)) ≡ ok o
      → (v ≡ optional_value o) × OptionalBytes o
  read_bytes v o h =
      let (bs, e, p) = >>=-eq-ok (decode_byte_list to_string v) _ h in
      let q : some bs ≡ o = ok-injective p in
      subst (λ x. (v ≡ optional_value x) × OptionalBytes x) q
        (decode_byte_list-eq-ok to_string v bs e)

  value_or_miss-eq-ok :
      (v : Value) (o : Option (List ℕ))
      → value_or_miss to_string v ≡ ok o
      → (v ≡ optional_value o) × OptionalBytes o
  unfolding value_or_miss
  value_or_miss-eq-ok Value.null o h =
      let q : none ≡ o = ok-injective h in
      subst (λ x. (Value.null ≡ optional_value x) × OptionalBytes x) q (refl, tt)
  value_or_miss-eq-ok (Value.bool b) o h = read_bytes (Value.bool b) o h
  value_or_miss-eq-ok (Value.number n) o h = read_bytes (Value.number n) o h
  value_or_miss-eq-ok (Value.string t) o h = read_bytes (Value.string t) o h
  value_or_miss-eq-ok (Value.arr xs) o h = read_bytes (Value.arr xs) o h
  value_or_miss-eq-ok (Value.obj fs) o h = read_bytes (Value.obj fs) o h

  -- The payload of a `CacheValue` is read as a miss exactly if it is null, and as a value exactly if
  -- it is that value's byte array: a miss and a stored empty value are told apart.
  pub value_or_miss_iff :
      (v : Value) (o : Option (List ℕ))
      → (value_or_miss to_string v ≡ ok o) ↔ ((v ≡ optional_value o) × OptionalBytes o)
  value_or_miss_iff v o =
      (value_or_miss-eq-ok v o, λ h. rw h.0 (value_or_miss-optional_value o h.1))

  -- Values and misses, sent in a list, are read back in their places.
  pub values_or_misses-array :
      (what : Text) (os : List (Option (List ℕ)))
      → All OptionalBytes os
      → values_or_misses to_string what (array (map optional_value os)) ≡ ok os
  unfolding values_or_misses
  values_or_misses-array what os h = rw to_list-of_list (
      collect-map (value_or_miss to_string) optional_value OptionalBytes os
        value_or_miss-optional_value h)

  pair_of_wire-pair_to_wire :
      (p : CachePair) → IsBytesPair p → pair_of_wire to_string (pair_to_wire p) ≡ ok p
  unfolding pair_of_wire pair_to_wire
  pair_of_wire-pair_to_wire p h =
      ap (λ r. r >>= λ x. ok (record { pair_field = x.0; pair_value = x.1 }))
        ((decode_pair_iff to_string (pair_to_wire p) p.pair_field p.pair_value).1 (refl, h.0, h.1))

  -- The entries of a hash, sent as an array of pairs, are read back in order.
  pub entries_of-array :
      (ps : List CachePair)
      → All IsBytesPair ps
      → entries_of to_string (some (array (map pair_to_wire ps))) ≡ ok ps
  unfolding entries_of
  entries_of-array ps h =
      rw to_list-of_list (
        collect-map (pair_of_wire to_string) pair_to_wire IsBytesPair ps pair_of_wire-pair_to_wire
          h)

-- A time to live is sent as null exactly if there is none or it is zero; any other is sent in whole
-- milliseconds, at most the largest `i64`.
pub ttl_value_outcome :
    (d : Duration)
    → (ttl_value none ≡ Value.null)
      × (ttl_value (some 0) ≡ Value.null)
      × (0 < d
          → (n : ℕ) × (ttl_value (some d) ≡ num n)
            × (n < 2 ^ 63)
            × (n * 1000000 ≤ d)
            × ((d < n * 1000000 + 1000000) ⊎ (n ≡ 2 ^ 63 - 1)))
unfolding ttl_value millis_or_null millis
ttl_value_outcome d = (
  refl,
  refl,
  λ h. (min (d / 1000000) (2 ^ 63 - 1), ground arith, omega arith, omega arith, omega arith),
)
