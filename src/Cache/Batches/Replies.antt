-- ===== src/Cache/Batches/Replies.antt =====
-- What a batch of commands hands back: one reply for each, failures included, in order.
use tricoredb_sdk_rust.Act.{>>=-of_ok, >>=-of_err}
use tricoredb_sdk_rust.Common.{◌≡◌, refl, ap, ◌∙◌, List, [], ◌∷◌, map, All, Text, codes, text_eq}
use tricoredb_sdk_rust.Environment.{Environment}
use tricoredb_sdk_rust.Failure.{Error, Result, ok, err}
use tricoredb_sdk_rust.Json.{Value, string, array, tagged, find_field, to_list-of_list}
use tricoredb_sdk_rust.Response.{Response, parsed, decode_variant}
use tricoredb_sdk_rust.Client.{Session, Call}
use tricoredb_sdk_rust.Client.Sending.{send}
use tricoredb_sdk_rust.Cache.{
  CacheReply, answered, failed_with, from_wire, reply_or, reply_data, text_of,
}
use tricoredb_sdk_rust.Cache.Calls.{CacheCodec, cache_json}
use tricoredb_sdk_rust.Cache.Calls.Answers.{cache_json-parsed, cache_json-err}
use tricoredb_sdk_rust.Cache.Readings.{collect-map}
use tricoredb_sdk_rust.Cache.Batches.{
  CacheCommand, batch_op, script_request, replies_of, cache_replies, cache_pipeline,
  cache_transaction, cache_script_run,
}

-- How the server writes the reply to one operation of a batch.
abbrev pub reply_json : CacheReply → Value
reply_json (answered kind payload) = tagged (codes "ok") (tagged kind payload)
reply_json (failed_with text) = tagged (codes "error") (string text)

-- How the server writes the replies to a batch.
abbrev pub results_json : List CacheReply → Value
results_json rs = tagged (codes "results") (array (map reply_json rs))

module _ (to_string : Value → Text) where
  from_wire-reply_json : (r : CacheReply) → from_wire to_string (reply_json r) ≡ ok r
  unfolding from_wire reply_or reply_data text_of find_field codes text_eq decode_variant
  from_wire-reply_json (answered kind payload) = refl
  from_wire-reply_json (failed_with text) = refl

  any_reply : (rs : List CacheReply) → All (λ r. Unit {0}) rs
  any_reply [] = tt
  any_reply (r ∷ rs) = (tt, any_reply rs)

  replies_of-results_json :
      (what : Text) (rs : List CacheReply) → replies_of to_string what (results_json rs) ≡ ok rs
  unfolding replies_of find_field codes text_eq
  replies_of-results_json what rs = rw to_list-of_list (
      collect-map (from_wire to_string) reply_json (λ r. Unit {0}) rs
        (λ r h. from_wire-reply_json r) (any_reply rs))

module _ {W A S T : Type 0} (env : Environment W A S T) (codec : CacheCodec) where
  -- A call that hands on its request's error, and else the replies that the server wrote.
  abbrev pub Replies : Value → Call env (List CacheReply) → Type 0
  Replies request call =
      (s : Session W S T)
      → let out = send env request s in
        ((e : Error) → out.0 ≡ err e → call s ≡ (err e, out.1))
        × ((r : Response) (rs : List CacheReply)
            → out.0 ≡ ok r
            → r.kind ≡ codes "Json"
            → codec.any_value r.data_value ≡ parsed (results_json rs)
            → call s ≡ (ok rs, out.1))

  cache_replies-Replies :
      (request : Value) (what : Text) → Replies request (cache_replies env codec request what)
  unfolding cache_replies
  cache_replies-Replies request what s =
      let call = cache_json env codec codec.any_value request what in
      (
        λ e h.
            let failed = cache_json-err env codec codec.any_value request what s e h in
            >>=-of_err call _ s (ap (λ (x : Result Value × Session W S T). x.0) failed)
            ∙ ap (λ w. (err e, w)) (ap (λ (x : Result Value × Session W S T). x.1) failed),
        λ r rs h k p.
            let read = cache_json-parsed env codec codec.any_value request what s r _ h k p in
            >>=-of_ok call _ s (ap (λ (x : Result Value × Session W S T). x.0) read)
            ∙ ap (λ w. (replies_of env.to_string what (results_json rs), w))
                (ap (λ (x : Result Value × Session W S T). x.1) read)
            ∙ ap (λ x. (x, (send env request s).1)) (replies_of-results_json env.to_string what rs),
      )

  -- A pipeline, a transaction and a script send one request with their operations, and hand back the
  -- replies one for one and in order; an operation that failed is a reply like another and does not
  -- make the call fail.
  pub batches_outcome :
      (ops : List CacheCommand) (name : Text) (args : List Text)
      → Replies (batch_op (codes "Pipeline") ops) (cache_pipeline env codec ops)
        × Replies (batch_op (codes "Transaction") ops) (cache_transaction env codec ops)
        × Replies (script_request name args) (cache_script_run env codec name args)
  unfolding cache_pipeline cache_transaction cache_script_run
  batches_outcome ops name args =
      (cache_replies-Replies _ _, cache_replies-Replies _ _, cache_replies-Replies _ _)
