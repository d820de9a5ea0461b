-- ===== src/Params.antt =====
-- params.rs: SQL parameters, the check of decimals, and the hexadecimal text of bytes.
-- An `f64` is its bit pattern.
pub mod Decimal
pub mod Conversions
mod Tests
use tricoredb_sdk_rust.Common.{
  ℕ, zero, suc, ◌+◌, ◌-◌, ◌/◌, ◌%◌, ◌^◌, ◌*◌, ◌≤◌, Bool, true, false, not, ◌&&◌, ◌||◌, List, [],
  ◌∷◌, ◌++◌, Option, none, some, Text, codes, show_nat, leb, ltb, all, is_empty, is_some, unwrap_or,
  get_elem?, ◌==◌, if◌then◌else◌,
}
use tricoredb_sdk_rust.Common.Int.{ℤ}
use tricoredb_sdk_rust.Address.{split_once, is_digit}
use tricoredb_sdk_rust.Failure.{Result, ok, err, invalid, ◌>>=◌, ◌>>◌}
use tricoredb_sdk_rust.Json.{is_finite}

pub data Param : Type 0 where
  null : Param
  bool : Bool → Param
  int : ℤ → Param
  uint : ℕ → Param
  float : ℕ → Param
  decimal : Text → Param
  bytes : List ℕ → Param
  text : Text → Param

-- `text.strip_prefix(['-', '+']).unwrap_or(text)`.
strip_sign : Text → Text
strip_sign [] = []
strip_sign (c ∷ s) = if c == b'-' || c == b'+' then s else c ∷ s

abbrev digits : Text → Bool
digits = all is_digit

abbrev none_or : (Text → Bool) → Option Text → Bool
none_or p none = true
none_or p (some t) = p t

-- The digits before the point, and those behind it if there is one.
decimal_parts : Text → Option Text → Bool
decimal_parts whole frac =
    digits whole
    && none_or digits frac
    && (not (is_empty whole) || not (none_or is_empty frac))
    && not (is_empty whole && not (is_some frac))

-- `match body.split_once('.')`.
halves_of : Text → Option (Text × Text) → Text × Option Text
halves_of body (some (a, b)) = (a, some b)
halves_of body none = (body, none)

unsigned_ok : Text → Bool
unfolding decimal_parts halves_of
unsigned_ok body =
    let (whole, frac) = halves_of body (split_once b'.' body) in decimal_parts whole frac

is_decimal : Text → Bool
unfolding strip_sign unsigned_ok
is_decimal t = unsigned_ok (strip_sign t)

pub validate_decimal : Text → Result (Unit {0})
unfolding is_decimal
validate_decimal t =
    if is_decimal t
    then ok tt
    else err (
        invalid (
          codes "`"
          ++ (t
              ++ codes
                  "` is not a plain decimal: use digits with an optional sign and fractional part, and no exponent")))

-- `Param::decimal`.
pub decimal_of : Text → Result Param
decimal_of t = do validate_decimal t; ok (decimal t)

-- Printing a float is a parameter: it is read in the message alone.
pub validate : (ℕ → Text) → Param → ℕ → Result (Unit {0})
validate show_float (float f) index =
    if is_finite f
    then ok tt
    else err (
        invalid (
          codes "parameter "
          ++ (show_nat (index + 1)
              ++ (codes " is "
                  ++ (show_float f
                      ++ codes
                          ", which has no SQL representation; only finite floats can be bound")))))
validate show_float (decimal d) index = validate_decimal d
validate show_float _ index = ok tt

-- `DIGITS[n]`.
unfoldable pub hex_digit : ℕ → ℕ
hex_digit n = if ltb n 10 then b'0' + n else b'a' + (n - 10)

unfoldable pub hex_bytes : List ℕ → Text
hex_bytes [] = []
hex_bytes (b ∷ bs) = hex_digit (b / 2 ^ 4) ∷ hex_digit (b % 2 ^ 4) ∷ hex_bytes bs

unfoldable pub hex : List ℕ → Text
unfolding hex_bytes
hex bs = b'0' ∷ b'x' ∷ hex_bytes bs

-- What `Serialize` asks of a serializer.
pub record Serializer (Out : Type 0) : Type 0 where
  pub serialize_none : Out
  pub serialize_bool : Bool → Out
  pub serialize_i64 : ℤ → Out
  pub serialize_i128 : ℤ → Out
  pub serialize_u64 : ℕ → Out
  pub serialize_u128 : ℕ → Out
  pub serialize_f64 : ℕ → Out
  pub serialize_str : Text → Out

-- `i64::try_from`.
fits_i64 : ℤ → Bool
fits_i64 (ℤ.pos n) = ltb n (2 ^ 63)
fits_i64 (ℤ.negsuc n) = ltb n (2 ^ 63)

pub serialize : {Out : Type 0} → Serializer Out → Param → Out
unfolding fits_i64
serialize s null = s.serialize_none
serialize s (bool b) = s.serialize_bool b
serialize s (int i) = if fits_i64 i then s.serialize_i64 i else s.serialize_i128 i
serialize s (uint u) = if ltb u (2 ^ 64) then s.serialize_u64 u else s.serialize_u128 u
serialize s (float f) = s.serialize_f64 f
serialize s (decimal d) = s.serialize_str d
serialize s (bytes b) = s.serialize_str (hex b)
serialize s (text t) = s.serialize_str t
