-- ===== src/Cache/Hex.antt =====
-- cache.rs: `decode_hex`, and that it reads what params.rs writes.
use tricoredb_sdk_rust.Common.{
  ℕ, ◌+◌, ◌-◌, ◌*◌, ◌/◌, ◌%◌, ◌^◌, ◌<◌, ◌≡◌, refl, ap, true, false, not, ◌&&◌, ◌||◌, List, [], ◌∷◌,
  Option, none, some, Text, codes, leb, ltb, ◌==◌, all, length, drop, arith, if◌then◌else◌,
}
use tricoredb_sdk_rust.Failure.{Error, Result, ok, err, protocol_error, ok_or, ◌>>=◌}
use tricoredb_sdk_rust.Params.{hex, hex_bytes, hex_digit}
use tricoredb_sdk_rust.Wire.RoundTrip.{IsBytes}

-- A hexadecimal digit of either case.
hex_value : ℕ → Option ℕ
hex_value c =
    if leb b'0' c && leb c b'9'
    then some (c - b'0')
    else if leb b'a' c && leb c b'f'
    then some (c - b'a' + 10)
    else if leb b'A' c && leb c b'F'
    then some (c - b'A' + 10)
    else none

two_digits : Option ℕ → Option ℕ → Option ℕ
two_digits (some a) (some b) = some (a * 16 + b)
two_digits _ _ = none

-- `u8::from_str_radix(…, 16)` of two characters: a plus sign may stand first.
byte_of : ℕ → ℕ → Option ℕ
unfolding hex_value two_digits
byte_of a b = if a == b'+' then hex_value b else two_digits (hex_value a) (hex_value b)

hex_malformed : Error
hex_malformed = protocol_error (codes "malformed hex value in a cache reply")

hex_pairs : Text → Result (List ℕ)
hex_pairs [] = ok []
hex_pairs (a ∷ []) = err hex_malformed
hex_pairs (a ∷ b ∷ rest) =
    let later = hex_pairs rest in
    do byte ← ok_or (byte_of a b) hex_malformed; bytes ← later; ok (byte ∷ bytes)

-- The text is measured in code points: on ASCII they are its bytes, and any other is refused.
pub decode_hex : Text → Result (List ℕ)
unfolding hex_pairs
decode_hex t =
    if not (length t % 2 == 0) || not (all (λ c. ltb c 128) t)
    then err hex_malformed
    else hex_pairs t

hex_value-hex_digit : (n : ℕ) → n < 16 → hex_value (hex_digit n) ≡ some n
unfolding hex_value hex_digit
hex_value-hex_digit n h = ground arith

hex_digit-lt : (n : ℕ) → n < 16 → hex_digit n < 128
unfolding hex_digit
hex_digit-lt n h = ground arith

hex_digit-ne_plus : (n : ℕ) → n < 16 → (hex_digit n == b'+') ≡ false
unfolding hex_digit
hex_digit-ne_plus n h = ground arith

byte_of-hex_digit :
    (b : ℕ) → b < 256 → byte_of (hex_digit (b / 2 ^ 4)) (hex_digit (b % 2 ^ 4)) ≡ some b
unfolding byte_of two_digits
byte_of-hex_digit b h = rw (hex_digit-ne_plus (b / 2 ^ 4) (omega arith)) (
    rw
      (hex_value-hex_digit (b / 2 ^ 4) (omega arith), hex_value-hex_digit (b % 2 ^ 4) (omega arith))
      (ap some (omega arith)))

hex_pairs-hex_bytes : (bs : List ℕ) → IsBytes bs → hex_pairs (hex_bytes bs) ≡ ok bs
unfolding hex_pairs hex_bytes
hex_pairs-hex_bytes [] h = refl
hex_pairs-hex_bytes (b ∷ bs) h = rw (byte_of-hex_digit b h.0, hex_pairs-hex_bytes bs h.1) refl

length-hex_bytes : (bs : List ℕ) → length (hex_bytes bs) ≡ 2 * length bs
unfolding hex_bytes
length-hex_bytes [] = refl
length-hex_bytes (b ∷ bs) = omega (arith, length-hex_bytes bs)

ascii-hex_bytes : (bs : List ℕ) → IsBytes bs → all (λ c. ltb c 128) (hex_bytes bs) ≡ true
unfolding hex_bytes
ascii-hex_bytes [] h = refl
ascii-hex_bytes (b ∷ bs) h = ground (
  arith,
  hex_digit-lt (b / 2 ^ 4) (omega arith),
  hex_digit-lt (b % 2 ^ 4) (omega arith),
  ascii-hex_bytes bs h.1,
)

even_length : (bs : List ℕ) → (length (hex_bytes bs) % 2 == 0) ≡ true
even_length bs = ground (arith, length-hex_bytes bs)

-- The hexadecimal text that a parameter of bytes is bound as is read back, behind its `0x`, as the
-- same bytes.
pub decode_hex-hex : (bs : List ℕ) → IsBytes bs → decode_hex (drop 2 (hex bs)) ≡ ok bs
unfolding decode_hex hex
decode_hex-hex bs h = rw (even_length bs, ascii-hex_bytes bs h) (hex_pairs-hex_bytes bs h)
