-- ===== src/Wire.antt =====
-- wire.rs: byte strings as JSON arrays of small integers.
pub mod RoundTrip
mod Tests
use tricoredb_sdk_rust.Common.{
  ℕ, zero, suc, ◌+◌, ◌%◌, ◌^◌, Bool, true, false, List, [], ◌∷◌, ◌++◌, map, Option, none, some,
  Text, codes, show_nat, leb, length, ◌==◌, filter_option, is_empty, if◌then◌else◌,
}
use tricoredb_sdk_rust.Failure.{
  Error, Result, ok, err, ◌>>=◌, ok_or, collect, protocol_error, invalid,
}
use tricoredb_sdk_rust.Json.{
  Value, Value.null, Value.bool, Value.number, Value.string, Value.arr, Value.obj, as_array, as_u64,
  array, num,
}

unfoldable pub byte_list : List ℕ → Value
byte_list bytes = array (map num bytes)

unfoldable pub byte_lists : List (List ℕ) → Text → Result Value
unfolding byte_list
byte_lists values name =
    if is_empty values
    then err (invalid (codes "`" ++ (name ++ codes "` must not be empty")))
    else ok (array (map byte_list values))

kind_of : Value → Text
kind_of Value.null = codes "null"
kind_of (Value.bool b) = codes "a boolean"
kind_of (Value.number n) = codes "a number"
kind_of (Value.string s) = codes "a string"
kind_of (Value.arr xs) = codes "an array"
kind_of (Value.obj fs) = codes "an object"

abbrev pair_of : List Value → Result (Value × Value)
pair_of (a ∷ b ∷ []) = ok (a, b)
pair_of _ = err (protocol_error (codes "expected a [field, value] pair"))

abbrev array_or_empty : Option (List Value) → List Value
array_or_empty none = []
array_or_empty (some items) = items

-- How serde_json prints a value is a parameter: it is read in messages alone.
module _ (to_string : Value → Text) where
  byte_error : ℕ → Value → Error
  byte_error index item = protocol_error (
      codes "byte "
      ++ (show_nat index
          ++ (codes " of the value is "
              ++ (to_string item ++ codes ", which is not a number in 0..=255"))))

  decode_byte : ℕ → Value → Result ℕ
  decode_byte index item = do
    n ← ok_or (filter_option (λ n. leb n 255) (as_u64 item)) (byte_error index item)
    ok (n % 2 ^ 8)

  -- The loop of `decode_byte_list`, from the item at `index` on.
  decode_bytes : ℕ → List Value → Result (List ℕ)
  decode_bytes index [] = ok []
  decode_bytes index (item ∷ items) =
      let rest = decode_bytes (index + 1) items in
      do n ← decode_byte index item; ns ← rest; ok (n ∷ ns)

  pub decode_byte_list : Value → Result (List ℕ)
  unfolding decode_bytes decode_byte
  decode_byte_list value = do
    items ←
        ok_or (as_array value)
          (protocol_error (codes "expected an array of bytes, got " ++ kind_of value))
    decode_bytes 0 items

  pub decode_byte_lists : Value → Result (List (List ℕ))
  decode_byte_lists value = do
    items ←
        ok_or (as_array value)
          (protocol_error (codes "expected an array of byte arrays, got " ++ kind_of value))
    collect decode_byte_list items

  pub decode_pair : Value → Result (List ℕ × List ℕ)
  decode_pair value = do
    halves ← pair_of (array_or_empty (as_array value))
    field ← decode_byte_list halves.0
    rest ← decode_byte_list halves.1
    ok (field, rest)
