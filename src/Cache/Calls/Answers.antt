-- ===== src/Cache/Calls/Answers.antt =====
-- What the operations on values hand back, by the server's reply.
use tricoredb_sdk_rust.Act.{>>=-of_ok, >>=-of_err}
use tricoredb_sdk_rust.Common.{ℕ, ◌≡◌, refl, ap, ◌∙◌, List, map, All, Option, Text, codes}
use tricoredb_sdk_rust.Environment.{Environment}
use tricoredb_sdk_rust.Failure.{Error, ok, err}
use tricoredb_sdk_rust.Json.{Value, array, insert_field}
use tricoredb_sdk_rust.Options.{Duration}
use tricoredb_sdk_rust.Response.{Response, Parsed, parsed}
use tricoredb_sdk_rust.Wire.{byte_list}
use tricoredb_sdk_rust.Client.{Call, Session}
use tricoredb_sdk_rust.Client.Sending.{send}
use tricoredb_sdk_rust.Client.Sending.Requests.Outcomes.{expect-kind, decode-parsed}
use tricoredb_sdk_rust.Cache.{CacheExpiry, expiry_to_wire, ns_key, keys_body, op, ttl_value}
use tricoredb_sdk_rust.Cache.Readings.{
  optional_value, OptionalBytes, value_or_miss_iff, values_or_misses-array,
}
use tricoredb_sdk_rust.Cache.Calls.{
  CacheCodec, cache_json, cache_value, cache_values, cache_get, cache_get_del, cache_get_set,
  cache_get_ex, cache_mget,
}

module _ {W A S T : Type 0} (env : Environment W A S T) (codec : CacheCodec) where
  -- A JSON reply is read, and an error of the request is handed on.
  pub cache_json-parsed :
      {B : Type 0} (read : Value → Parsed B) (request : Value) (what : Text) (s : Session W S T)
      (r : Response) (b : B)
      → (send env request s).0 ≡ ok r
      → r.kind ≡ codes "Json"
      → read r.data_value ≡ parsed b
      → cache_json env codec read request what s ≡ (ok b, (send env request s).1)
  unfolding cache_json
  cache_json-parsed read request what s r b h k p =
      >>=-of_ok (send env request) _ s h
      ∙ ap (λ x. (x, (send env request s).1)) (decode-parsed read r what b k p)

  pub cache_json-err :
      {B : Type 0} (read : Value → Parsed B) (request : Value) (what : Text) (s : Session W S T)
      (e : Error)
      → (send env request s).0 ≡ err e
      → cache_json env codec read request what s ≡ (err e, (send env request s).1)
  unfolding cache_json
  cache_json-err read request what s e h = >>=-of_err (send env request) _ s h

  -- How a request's outcome is handed back as an optional value.
  abbrev pub HandsBack : Value → Call env (Option (List ℕ)) → Type 0
  HandsBack request call =
      (s : Session W S T)
      → ((e : Error) → (send env request s).0 ≡ err e → call s ≡ (err e, (send env request s).1))
        × ((r : Response) (o : Option (List ℕ))
            → (send env request s).0 ≡ ok r
            → r.kind ≡ codes "CacheValue"
            → r.data_value ≡ optional_value o
            → OptionalBytes o
            → call s ≡ (ok o, (send env request s).1))

  cache_value-HandsBack :
      (request : Value) (what : Text) → HandsBack request (cache_value env codec request what)
  unfolding cache_value
  cache_value-HandsBack request what s = (
    λ e h. >>=-of_err (send env request) _ s h,
    λ r o h k d b.
        >>=-of_ok (send env request) _ s h
        ∙ rw (expect-kind r (codes "CacheValue") what k)
            (rw ((value_or_miss_iff env.to_string r.data_value o).1 (d, b)) refl),
  )

  -- The four reads of one value send the request with their own name and body, return an error of
  -- the request as it is, and hand back a value or a miss exactly as the server's reply has it.
  pub reads_outcome :
      (namespace key : Text) (value : List ℕ) (ttl : Option Duration) (expiry : CacheExpiry)
      → HandsBack (op (codes "Get") (ns_key namespace key)) (cache_get env codec namespace key)
        × HandsBack
            (op (codes "GetDel") (ns_key namespace key))
            (cache_get_del env codec namespace key)
        × HandsBack
            (op (codes "GetSet") (
              insert_field
                (codes "ttl_ms")
                (ttl_value ttl)
                (insert_field (codes "value") (byte_list value) (ns_key namespace key))))
            (cache_get_set env codec namespace key value ttl)
        × HandsBack
            (op
              (codes "GetEx")
              (insert_field (codes "expiry") (expiry_to_wire expiry) (ns_key namespace key)))
            (cache_get_ex env codec namespace key expiry)
  unfolding cache_get cache_get_del cache_get_set cache_get_ex
  reads_outcome namespace key value ttl expiry = (
    cache_value-HandsBack _ _,
    cache_value-HandsBack _ _,
    cache_value-HandsBack _ _,
    cache_value-HandsBack _ _,
  )

  -- A read of many keys hands back, in the order of the reply, a value or a miss for each.
  pub cache_mget_outcome :
      (namespace : Text) (keys : List Text) (s : Session W S T) (r : Response)
      (os : List (Option (List ℕ)))
      → (send env (op (codes "MGet") (keys_body namespace keys)) s).0 ≡ ok r
      → r.kind ≡ codes "CacheValues"
      → r.data_value ≡ array (map optional_value os)
      → All OptionalBytes os
      → cache_mget env codec namespace keys s
        ≡ (ok os, (send env (op (codes "MGet") (keys_body namespace keys)) s).1)
  unfolding cache_mget cache_values
  cache_mget_outcome namespace keys s r os h k d b =
      >>=-of_ok (send env (op (codes "MGet") (keys_body namespace keys))) _ s h
      ∙ rw (expect-kind r (codes "CacheValues") (codes "MGet") k)
          (rw (d, values_or_misses-array env.to_string (codes "MGet") os b) refl)
