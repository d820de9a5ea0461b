-- ===== src/Cache/Tests.antt =====
-- Cache values at concrete inputs.
use tricoredb_sdk_rust.Common.{Bool, ◌≡◌, ◌↔◌, List, [], ◌∷◌, none, some, Text, codes, drop, arith}
use tricoredb_sdk_rust.Environment.Scripted.{scripted}
use tricoredb_sdk_rust.Failure.{ok}
use tricoredb_sdk_rust.Json.{Value, array, insert_field}
use tricoredb_sdk_rust.Params.{hex}
use tricoredb_sdk_rust.Response.{parsed}
use tricoredb_sdk_rust.Common.Int.{ℤ}
use tricoredb_sdk_rust.Wire.{byte_list}
use tricoredb_sdk_rust.Cache.{
  CachePair, CacheExpiry, value_or_miss, ttl_value, ns_key, op, expiry_to_wire,
}
use tricoredb_sdk_rust.Cache.Hex.{decode_hex, decode_hex-hex}
use tricoredb_sdk_rust.Cache.Readings.{optional_value, OptionalBytes, value_or_miss_iff}
use tricoredb_sdk_rust.Cache.Calls.{
  CacheCodec, cache_get, cache_get_del, cache_get_set, cache_get_ex,
}
use tricoredb_sdk_rust.Cache.Calls.Answers.{HandsBack, reads_outcome}

abbrev silent : Value → Text
silent v = []

decode_hex-hex_example : decode_hex (drop 2 (hex (0 ∷ 171 ∷ 255 ∷ []))) ≡ ok (0 ∷ 171 ∷ 255 ∷ [])
decode_hex-hex_example =
    decode_hex-hex (0 ∷ 171 ∷ 255 ∷ []) (omega arith, (omega arith, (omega arith, tt)))

value_or_miss_iff_example :
    (value_or_miss silent (array []) ≡ ok (some []))
    ↔ ((array [] ≡ optional_value (some [])) × OptionalBytes (some []))
value_or_miss_iff_example = value_or_miss_iff silent (array []) (some [])

abbrev one_pair : List CachePair
one_pair = record { pair_field = 110 ∷ []; pair_value = 97 ∷ [] } ∷ []

abbrev pub codec : CacheCodec
codec = record {
  int_field = λ name v. parsed (ℤ.pos 0);
  bool_field = λ name v. parsed Bool.true;
  text_field = λ name v. parsed [];
  optional_int_field = λ name v. parsed none;
  key_infos = λ v. parsed [];
  any_value = λ v. parsed v;
  wire_entries = λ v. parsed [];
}

abbrev users : Text
users = codes "users"

abbrev ada : Text
ada = codes "ada"

reads_outcome_example :
    HandsBack scripted codec
      (op (codes "Get") (ns_key users ada))
      (cache_get scripted codec users ada)
    × HandsBack scripted codec
        (op (codes "GetDel") (ns_key users ada))
        (cache_get_del scripted codec users ada)
    × HandsBack scripted codec
        (op (codes "GetSet") (
          insert_field
            (codes "ttl_ms")
            (ttl_value none)
            (insert_field (codes "value") (byte_list (7 ∷ [])) (ns_key users ada))))
        (cache_get_set scripted codec users ada (7 ∷ []) none)
    × HandsBack scripted codec
        (op
          (codes "GetEx")
          (insert_field (codes "expiry") (expiry_to_wire CacheExpiry.keep) (ns_key users ada)))
        (cache_get_ex scripted codec users ada CacheExpiry.keep)
reads_outcome_example = reads_outcome scripted codec users ada (7 ∷ []) none CacheExpiry.keep
