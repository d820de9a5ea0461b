-- ===== src/Address.antt =====
-- client.rs: `host:port` texts, as a `leader_hint` names them.
pub mod RoundTrip
mod Tests
use tricoredb_sdk_rust.Common.{
  ℕ, ◌+◌, ◌*◌, ◌-◌, Bool, false, not, ◌&&◌, ◌||◌, [], ◌∷◌, ◌++◌, Option, none, some, Text, show_nat,
  leb, ◌==◌, is_empty, if◌then◌else◌,
}

abbrev pub colon : ℕ
colon = b':'

abbrev pub open_bracket : ℕ
open_bracket = 91

abbrev pub close_bracket : ℕ
close_bracket = 93

abbrev pub is_digit : ℕ → Bool
is_digit c = leb b'0' c && leb c b'9'

-- One more character before the first half of a split.
abbrev pub prepend : ℕ → Option (Text × Text) → Option (Text × Text)
prepend x none = none
prepend x (some (a, b)) = some (x ∷ a, b)

-- `str::split_once` at one character.
unfoldable pub split_once : ℕ → Text → Option (Text × Text)
split_once c [] = none
split_once c (x ∷ s) =
    let later = split_once c s in if x == c then some ([], s) else prepend x later

-- `str::rsplit_once`: at the last occurrence.
or_here : ℕ → ℕ → Text → Option (Text × Text) → Option (Text × Text)
or_here c x s (some (a, b)) = some (x ∷ a, b)
or_here c x s none = if x == c then some ([], s) else none

unfoldable pub rsplit_once : ℕ → Text → Option (Text × Text)
unfolding or_here
rsplit_once c [] = none
rsplit_once c (x ∷ s) = or_here c x s (rsplit_once c s)

-- `str::split_once("]:")`.
unfoldable pub split_bracket : Text → Option (Text × Text)
split_bracket [] = none
split_bracket (x ∷ []) = none
split_bracket (x ∷ y ∷ s) =
    let later = split_bracket (y ∷ s) in
    if (x == close_bracket) && (y == colon) then some ([], s) else prepend x later

-- The digits of a `u16`, with an overflow at any step refused.
unfoldable pub parse_digits : ℕ → Text → Option ℕ
parse_digits value [] = some value
parse_digits value (c ∷ s) =
    let rest = parse_digits (value * 10 + (c - b'0')) s in
    if is_digit c && leb (value * 10 + (c - b'0')) 65535 then rest else none

parse_unsigned : Text → Option ℕ
parse_unsigned [] = none
parse_unsigned (c ∷ s) = parse_digits 0 (c ∷ s)

-- `str::parse::<u16>`: digits, after a plus sign at most.
unfoldable pub parse_u16 : Text → Option ℕ
unfolding parse_unsigned
parse_u16 [] = none
parse_u16 (c ∷ s) = if c == b'+' then parse_unsigned s else parse_unsigned (c ∷ s)

-- The host and port of a split address: neither may be empty or zero.
checked : Text → Option ℕ → Option (Text × ℕ)
checked host none = none
checked host (some port) =
    if not (is_empty host) && not (port == 0) then some (host, port) else none

with_port : Option (Text × Text) → Option (Text × ℕ)
unfolding checked
with_port none = none
with_port (some (host, port)) = checked host (parse_u16 port)

unfoldable pub split_address : Text → Option (Text × ℕ)
unfolding with_port
split_address [] = with_port (rsplit_once colon [])
split_address (c ∷ s) =
    if c == open_bracket then with_port (split_bracket s) else with_port (rsplit_once colon (c ∷ s))

-- `str::contains` of one character.
abbrev pub contains_char : ℕ → Text → Bool
contains_char c [] = false
contains_char c (x ∷ s) = x == c || contains_char c s

unfoldable pub join_address : Text → ℕ → Text
join_address host port =
    if contains_char colon host
    then open_bracket ∷ (host ++ (close_bracket ∷ colon ∷ show_nat port))
    else host ++ (colon ∷ show_nat port)
