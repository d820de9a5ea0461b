-- ===== src/Document/Reads/Outcomes.antt =====
-- What the reads of documents hand back, by the server's reply.
use tricoredb_sdk_rust.Common.{◌≡◌, List, [], ◌∷◌, Text, codes}
use tricoredb_sdk_rust.Environment.{Environment}
use tricoredb_sdk_rust.Failure.{Error, ok, err}
use tricoredb_sdk_rust.Json.{Value, Fields}
use tricoredb_sdk_rust.Json.Maps.{entry}
use tricoredb_sdk_rust.Response.{Response, parsed}
use tricoredb_sdk_rust.Client.{Session, Call}
use tricoredb_sdk_rust.Client.Sending.{send}
use tricoredb_sdk_rust.Document.{document_op, text_entry}
use tricoredb_sdk_rust.Document.Codec.{DocumentCodec}
use tricoredb_sdk_rust.Document.Stages.{DocumentFilter}
use tricoredb_sdk_rust.Document.Reads.{documents_of}

pub find_body : Text → DocumentFilter → Value → Value
find_body collection filter limit = document_op (codes "Find") (
    text_entry (codes "collection") collection
    ∷ entry (codes "filter") filter.filter_value
    ∷ entry (codes "limit") limit
    ∷ [])

module _ {W A S T : Type 0} (env : Environment W A S T) (codec : DocumentCodec) where
  -- A call that hands on its request's error and that of reading its reply, and else something of the
  -- documents of the reply.
  abbrev pub Delivers : {B : Type 0} → Text → Value → (List Fields → B) → Call env B → Type 0
  Delivers what request of_documents call =
      (s : Session W S T)
      → let out = send env request s in
        ((e : Error) → out.0 ≡ err e → call s ≡ (err e, out.1))
        × ((r : Response) (ds : List Fields)
            → out.0 ≡ ok r
            → r.kind ≡ codes "Documents"
            → codec.documents r.data_value ≡ parsed ds
            → call s ≡ (ok (of_documents ds), out.1))
        × ((r : Response) (e : Error)
            → out.0 ≡ ok r
            → documents_of env codec r what ≡ err e
            → call s ≡ (err e, out.1))
