-- ===== src/Cache/Members/Refusals.antt =====
-- The operations on several items: all of them are sent, or there are none and nothing is sent.
use tricoredb_sdk_rust.Common.{
  ◌≡◌, List, [], ◌∷◌, map, Option, Text, codes, utf8, filter_option, not, is_empty,
}
use tricoredb_sdk_rust.Common.Int.{ℤ}
use tricoredb_sdk_rust.Environment.{Environment}
use tricoredb_sdk_rust.Json.{Value, string, array, insert_field}
use tricoredb_sdk_rust.Json.Maps.{or_null}
use tricoredb_sdk_rust.Wire.{byte_list}
use tricoredb_sdk_rust.Client.{Call}
use tricoredb_sdk_rust.Client.Sending.Requests.Outcomes.{RefusedInvalid}
use tricoredb_sdk_rust.Cache.{ns_key, op}
use tricoredb_sdk_rust.Cache.Calls.{CacheCodec, cache_json}

-- A pair of texts as it is sent.
abbrev pub text_pair : Text × Text → Value
text_pair p = array (byte_list (utf8 p.0) ∷ byte_list (utf8 p.1) ∷ [])

module _ {W A S T : Type 0} (env : Environment W A S T) (codec : CacheCodec) where
  -- An operation on items that is refused as an invalid argument, with nothing sent and the session as
  -- it was, when there are none, and that else is the one request for all of them.
  abbrev pub AllOrNone : {X B : Type 0} → (List X → Call env B) → (List X → Call env B) → Type 0
  AllOrNone {X} call request =
      RefusedInvalid env (call []) × ((x : X) (xs : List X) → call (x ∷ xs) ≡ request (x ∷ xs))

  -- The request of an operation on a key, whose items stand in order in one field of its body, and
  -- whose reply is a number in another.
  abbrev pub counted :
      {X : Type 0} → Text → Text → Text → (X → Value) → Text → Text → List X → Call env ℤ
  counted reply variant items to_wire namespace key xs =
      cache_json env codec (codec.int_field reply)
        (op variant (insert_field items (array (map to_wire xs)) (ns_key namespace key))) variant

  -- The request that appends to a stream, under an id that is left to the server if it is empty.
  abbrev pub appended :
      {X : Type 0} → (X → Value) → Text → Text → Option Text → List X → Call env Text
  appended to_wire namespace key id xs =
      cache_json env codec (codec.text_field (codes "id"))
        (op (codes "XAdd") (
          insert_field (codes "id") (or_null string (filter_option (λ i. not (is_empty i)) id))
            (insert_field (codes "fields") (array (map to_wire xs)) (ns_key namespace key))))
        (codes "XAdd")
