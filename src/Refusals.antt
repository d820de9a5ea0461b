-- ===== src/Refusals.antt =====
-- The requests of document.rs, vector.rs and llm.rs that are refused before anything is sent.
mod Tests
use tricoredb_sdk_rust.Common.{
  ◌≡◌, ◌≢◌, refl, sym, ap, ◌∙◌, inl, inr, true, List, [], ◌∷◌, ◌++◌, Option, none, Text,
}
use tricoredb_sdk_rust.Environment.{Environment}
use tricoredb_sdk_rust.Failure.{
  Error, Result, ok, err, collect, Result-cases, err-injective, ok-ne-err, was_refused_locally,
}
use tricoredb_sdk_rust.Json.{Value, Fields}
use tricoredb_sdk_rust.Response.{Parsed, parsed, malformed}
use tricoredb_sdk_rust.Client.Sending.Requests.Outcomes.{RefusedHere}
use tricoredb_sdk_rust.Document.Codec.{DocumentCodec}
use tricoredb_sdk_rust.Document.Settings.{ReplaceOptions}
use tricoredb_sdk_rust.Document.Stages.{DocumentFilter}
use tricoredb_sdk_rust.Document.Updates.{new_update, is_empty_update}
use tricoredb_sdk_rust.Document.Writes.{
  as_object, object_value, document_insert_inner, document_insert, document_insert_with_id,
  document_insert_many, document_replace, update_one, document_update_one, document_upsert_one,
  document_update_many,
}
use tricoredb_sdk_rust.Llm.{OutputFormat, LlmOptions, llm_context}
use tricoredb_sdk_rust.Vector.{sets_nothing}
use tricoredb_sdk_rust.Vector.Codec.{VectorCodec}
use tricoredb_sdk_rust.Vector.Collections.{vector_set_collection_config}
use tricoredb_sdk_rust.Vector.Settings.{VectorConfigChange}

-- A refusal that names a local mistake.
abbrev Refused : {B : Type 0} → Result B → Type 0
Refused r = (e : Error) × (was_refused_locally e ≡ true) × (r ≡ err e)

as_object-Refused :
    (p : Parsed Value) → ((fs : Fields) → p ≢ parsed (Value.obj fs)) → Refused (as_object p)
unfolding as_object was_refused_locally
as_object-Refused (malformed e) h = (_, refl, refl)
as_object-Refused (parsed (Value.obj fs)) h = absurd (h fs refl)
as_object-Refused (parsed Value.null) h = (_, refl, refl)
as_object-Refused (parsed (Value.bool b)) h = (_, refl, refl)
as_object-Refused (parsed (Value.number n)) h = (_, refl, refl)
as_object-Refused (parsed (Value.string t)) h = (_, refl, refl)
as_object-Refused (parsed (Value.arr xs)) h = (_, refl, refl)

as_object-eq-err :
    (p : Parsed Value) {e : Error} → as_object p ≡ err e → was_refused_locally e ≡ true
unfolding as_object was_refused_locally
as_object-eq-err (malformed e) h = ap was_refused_locally (err-injective (sym h))
as_object-eq-err (parsed (Value.obj fs)) h = absurd (ok-ne-err h)
as_object-eq-err (parsed Value.null) h = ap was_refused_locally (err-injective (sym h))
as_object-eq-err (parsed (Value.bool b)) h = ap was_refused_locally (err-injective (sym h))
as_object-eq-err (parsed (Value.number n)) h = ap was_refused_locally (err-injective (sym h))
as_object-eq-err (parsed (Value.string t)) h = ap was_refused_locally (err-injective (sym h))
as_object-eq-err (parsed (Value.arr xs)) h = ap was_refused_locally (err-injective (sym h))

module _ {D : Type 0} (to_value : D → Parsed Value) where
  abbrev pub NotObject : D → Type 0
  NotObject d = (fs : Fields) → to_value d ≢ parsed (Value.obj fs)

  object_value-Refused : (d : D) → NotObject d → Refused (object_value to_value d)
  unfolding object_value
  object_value-Refused d h = as_object-Refused (to_value d) h

  collect-Refused :
      (before : List D) (d : D) (after : List D)
      → NotObject d
      → Refused (collect (object_value to_value) (before ++ d ∷ after))
  unfolding collect object_value
  collect-Refused [] d after h =
      let (e, l, p) = as_object-Refused (to_value d) h in (e, l, rw p refl)
  collect-Refused (b ∷ before) d after h = elim (Result-cases (as_object (to_value b))) [
    | inl (v, p) ↦ let (e, l, q) = collect-Refused before d after h in (e, l, rw (p, q) refl)
    | inr (e, p) ↦ (e, as_object-eq-err (to_value b) p, rw p refl)
  ]

module _ {W A S T : Type 0} (env : Environment W A S T) (documents : DocumentCodec)
    (vectors : VectorCodec) where
  -- Nothing is sent, and the session stays as it was, for a document that does not encode to an
  -- object, alone or among others to insert; for an update that changes nothing; for a change of
  -- configuration that sets nothing; and for a context without sources.
  pub requests_refused :
      {D : Type 0} (to_value : D → Parsed Value) (collection id : Text) (d : D)
      (before after : List D) (o : ReplaceOptions) (filter : DocumentFilter) (format : OutputFormat)
      (settings : Option LlmOptions)
      → NotObject to_value d
      → RefusedHere env (document_insert env documents to_value collection d)
        × RefusedHere env (document_insert_with_id env documents to_value collection id d)
        × RefusedHere env (document_replace env documents to_value collection id d o)
        × RefusedHere env
            (document_insert_many env documents to_value collection (before ++ d ∷ after))
        × RefusedHere env (document_update_one env documents collection id new_update)
        × RefusedHere env (document_upsert_one env documents collection id new_update)
        × RefusedHere env (document_update_many env documents collection filter new_update)
        × RefusedHere env (
            vector_set_collection_config env vectors collection
              (record { normalize = none; m = none; ef_construction = none; multi_tenant = none }))
        × RefusedHere env (llm_context env [] format settings)
  unfolding document_insert document_insert_with_id document_insert_inner document_replace
      document_insert_many document_update_one document_upsert_one update_one document_update_many
      new_update is_empty_update vector_set_collection_config sets_nothing llm_context
      was_refused_locally
  requests_refused to_value collection id d before after o filter format settings h =
      let (e, l, p) = object_value-Refused to_value d h in
      let (e', l', p') = collect-Refused to_value before d after h in
      (
        λ s. (e, l, rw p refl),
        λ s. (e, l, rw p refl),
        λ s. (e, l, rw p refl),
        λ s. (e', l', rw p' refl),
        λ s. (_, refl, refl),
        λ s. (_, refl, refl),
        λ s. (_, refl, refl),
        λ s. (_, refl, refl),
        λ s. (_, refl, refl),
      )
