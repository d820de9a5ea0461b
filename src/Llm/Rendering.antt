-- ===== src/Llm/Rendering.antt =====
-- What an export hands back, by the kind of the server's reply.
use tricoredb_sdk_rust.Act.{lift, ◌>>=◌, >>=-of_ok, >>=-of_err}
use tricoredb_sdk_rust.Common.{
  ◌≡◌, ◌⊎◌, inl, inr, refl, true, false, List, [], ◌∷◌, map, Option, none, some, Text, codes,
  text_eq, text_eq_iff, Bool-cases, subst, unwrap_or,
}
use tricoredb_sdk_rust.Environment.{Environment}
use tricoredb_sdk_rust.Failure.{Error, Result, ok, err}
use tricoredb_sdk_rust.Json.{Value, array, null, bool}
use tricoredb_sdk_rust.Json.Maps.{entry, object}
use tricoredb_sdk_rust.Response.{Response}
use tricoredb_sdk_rust.Client.{Session, Call}
use tricoredb_sdk_rust.Client.Sending.{send}
use tricoredb_sdk_rust.Llm.{
  LlmOptions, LlmSource, OutputFormat, default_llm, to_wire, format_json, llm_op, rendered,
  text_or_print, not_rendered, llm_context, llm_schema,
}

-- A reply that is handed back as a text, and that text.
abbrev pub Renders : (Value → Text) → Response → Result Text → Type 0
Renders to_string r out =
    (((r.kind ≡ codes "Toon") ⊎ (r.kind ≡ codes "Message"))
      × (out ≡ ok (text_or_print to_string r.data_value)))
    ⊎ ((r.kind ≡ codes "Json") × (out ≡ ok (to_string r.data_value)))
    ⊎ ((text_eq r.kind (codes "Toon") ≡ false)
        × (text_eq r.kind (codes "Message") ≡ false)
        × (text_eq r.kind (codes "Json") ≡ false)
        × (out ≡ err (not_rendered r)))

rendered-Renders :
    (to_string : Value → Text) (r : Response) → Renders to_string r (rendered to_string r)
unfolding rendered
rendered-Renders to_string r = elim (Bool-cases (text_eq r.kind (codes "Toon"))) [
  | inl p ↦ rw p (inl (inl ((text_eq_iff r.kind (codes "Toon")).0 p), refl))
  | inr p ↦ elim (Bool-cases (text_eq r.kind (codes "Message"))) [
    | inl q ↦ rw (p, q) (inl (inr ((text_eq_iff r.kind (codes "Message")).0 q), refl))
    | inr q ↦ elim (Bool-cases (text_eq r.kind (codes "Json"))) [
      | inl u ↦ rw (p, q, u) (inr (inl ((text_eq_iff r.kind (codes "Json")).0 u, refl)))
      | inr u ↦ rw (p, q, u) (inr (inr (refl, refl, refl, refl)))
    ]
  ]
]

-- The options as they are sent: those given, or the defaults, which redact.
abbrev pub sent_options : Option LlmOptions → Value
sent_options none = object (
    entry (codes "max_rows") null
    ∷ entry (codes "redact_sensitive") (bool true)
    ∷ entry (codes "include_schema") (bool false)
    ∷ [])
sent_options (some o) = to_wire o

default-sent : (o : Option LlmOptions) → to_wire (unwrap_or o default_llm) ≡ sent_options o
unfolding to_wire default_llm
default-sent none = refl
default-sent (some o) = refl

module _ {W A S T : Type 0} (env : Environment W A S T) where
  -- A call that hands on its request's error, and else the rendering of the reply.
  abbrev pub HandsText : Value → Call env Text → Type 0
  HandsText request call =
      (s : Session W S T)
      → let out = send env request s in
        ((e : Error) → out.0 ≡ err e → call s ≡ (err e, out.1))
        × ((r : Response)
            → out.0 ≡ ok r
            → (text : Result Text) × Renders env.to_string r text × (call s ≡ (text, out.1)))

  text-HandsText :
      (request : Value)
      → HandsText request (send env request >>= λ r. lift (rendered env.to_string r))
  text-HandsText request s = (
    λ e h. >>=-of_err (send env request) _ s h,
    λ r h. (
      rendered env.to_string r,
      rendered-Renders env.to_string r,
      >>=-of_ok (send env request) _ s h,
    ),
  )

  -- An export of one source or more, and an export of the schema, send one request, in which options
  -- that are not given redact what is sensitive, and hand back the reply: a text as it is, another
  -- value printed, and an error for a reply of another kind.
  pub exports_outcome :
      (source : LlmSource) (sources : List LlmSource) (format : OutputFormat)
      (o : Option LlmOptions)
      → HandsText
          (llm_op (codes "Context") (
            entry (codes "sources") (array (map (λ s. s.source_value) (source ∷ sources)))
            ∷ entry (codes "format") (format_json format)
            ∷ entry (codes "options") (sent_options o)
            ∷ []))
          (llm_context env (source ∷ sources) format o)
        × HandsText
            (llm_op (codes "Schema") (
              entry (codes "format") (format_json format)
              ∷ entry (codes "options") (sent_options o)
              ∷ []))
            (llm_schema env format o)
  unfolding llm_context llm_schema
  exports_outcome source sources format o =
      subst
        (λ v.
          HandsText
            (llm_op (codes "Context") (
              entry (codes "sources") (array (map (λ s. s.source_value) (source ∷ sources)))
              ∷ entry (codes "format") (format_json format)
              ∷ entry (codes "options") v
              ∷ []))
            (llm_context env (source ∷ sources) format o)
          × HandsText
              (llm_op (codes "Schema")
                (entry (codes "format") (format_json format) ∷ entry (codes "options") v ∷ []))
              (llm_schema env format o))
        (default-sent o) (text-HandsText _, text-HandsText _)
