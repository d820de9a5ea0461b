-- ===== src/Wire/Tests.antt =====
-- Byte strings at concrete values.
use tricoredb_sdk_rust.Common.{ℕ, ◌≡◌, ◌↔◌, List, [], ◌∷◌, Text}
use tricoredb_sdk_rust.Failure.{ok}
use tricoredb_sdk_rust.Json.{Value, array, num}
use tricoredb_sdk_rust.Wire.{byte_list, decode_byte_list}
use tricoredb_sdk_rust.Wire.RoundTrip.{IsBytes, decode_byte_list_iff}

abbrev silent : Value → Text
silent v = []

decode_byte_list_iff_example :
    (decode_byte_list silent (array (num 7 ∷ num 255 ∷ [])) ≡ ok (7 ∷ 255 ∷ []))
    ↔ ((array (num 7 ∷ num 255 ∷ []) ≡ byte_list (7 ∷ 255 ∷ [])) × IsBytes (7 ∷ 255 ∷ []))
decode_byte_list_iff_example =
    decode_byte_list_iff silent (array (num 7 ∷ num 255 ∷ [])) (7 ∷ 255 ∷ [])

abbrev two_strings : List (List ℕ)
two_strings = (1 ∷ 2 ∷ []) ∷ [] ∷ []

abbrev sent_pair : Value
sent_pair = array (array (num 1 ∷ []) ∷ array [] ∷ [])
