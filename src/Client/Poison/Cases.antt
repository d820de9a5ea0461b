-- ===== src/Client/Poison/Cases.antt =====
-- How an exchange of frames ends, by the step at which it stops.
use tricoredb_sdk_rust.Common.{
  ℕ, ◌<◌, ◌≤◌, ◌≡◌, refl, sym, subst, ◌⊎◌, inl, inr, Bool, true, false, List, ◌∷◌, ◌++◌, Option,
  none, some, length, arith,
}
use native.Mathlib.Decide.{dec_lt}
use tricoredb_sdk_rust.Environment.{Environment, shutdown_transport}
use tricoredb_sdk_rust.Failure.{Error, Result, ok, err, Result-cases}
use tricoredb_sdk_rust.Frame.{
  Tag, Frame, encode, max_payload, too_large_to_send, frame_version, as_u8, to_be_bytes,
  write_frame, read_frame,
}
use tricoredb_sdk_rust.Json.{Value}
use tricoredb_sdk_rust.Client.{
  Session, exchange, exchange_as, exchange_open, send_frame, receive_frame, or_poison_from, poison,
  poisoned, body_of, dropped_error, closed_error,
}
use tricoredb_sdk_rust.Client.Poison.{broken}

module _ {W A S T : Type 0} (env : Environment W A S T) (tag : Tag) (payload : Option Value)
    (s : Session W S T) where
  -- What is written to, and read from, the transport of the session.
  abbrev writes : List ℕ → Result (Unit {0}) × W
  writes body =
      write_frame (env.write_all s.client.transport) (env.flush s.client.transport) tag body s.world

  abbrev reads : W → Result Frame × W
  reads = read_frame (env.read_exact s.client.transport)

  -- The session after a failure on the wire: the socket is shut down, the transaction over, and the
  -- failure is the fault.
  abbrev ruined : Error → W → Session W S T
  ruined e w = broken s e (shutdown_transport env s.client.transport w)

  abbrev IsOpen : Type 0
  IsOpen = (s.client.fault ≡ none) × (s.client.closed ≡ false)

  -- The steps of an exchange, by the one at which it stops.
  pub data Exchanges : Result Frame → Session W S T → Type 0 where
    dropped : (f : Error) → s.client.fault ≡ some f → Exchanges (err (dropped_error env f)) s
    over : s.client.fault ≡ none → s.client.closed ≡ true → Exchanges (err (closed_error env)) s
    unencoded : (e : Error) → IsOpen → body_of env payload ≡ err e → Exchanges (err e) s
    oversized :
        (body : List ℕ)
        → IsOpen
        → body_of env payload ≡ ok body
        → max_payload tag < length body
        → Exchanges (err (too_large_to_send tag (length body))) s
    unsent :
        (body : List ℕ) (e : Error)
        → IsOpen
        → body_of env payload ≡ ok body
        → length body ≤ max_payload tag
        → (writes body).0 ≡ err e
        → Exchanges (err e) (ruined e (writes body).1)
    unanswered :
        (body : List ℕ) (e : Error)
        → IsOpen
        → body_of env payload ≡ ok body
        → length body ≤ max_payload tag
        → (writes body).0 ≡ ok tt
        → (reads (writes body).1).0 ≡ err e
        → Exchanges (err e) (ruined e (reads (writes body).1).1)
    answered :
        (body : List ℕ) (frame : Frame)
        → IsOpen
        → body_of env payload ≡ ok body
        → length body ≤ max_payload tag
        → (writes body).0 ≡ ok tt
        → (reads (writes body).1).0 ≡ ok frame
        → Exchanges (ok frame) (record s { world = (reads (writes body).1).1 })

  abbrev Ends : Result Frame × Session W S T → Type 0
  Ends out = Exchanges out.0 out.1

  encode_cases :
      (body : List ℕ)
      → ((max_payload tag < length body)
          × (encode tag body ≡ err (too_large_to_send tag (length body))))
        ⊎ ((length body ≤ max_payload tag) × ((bytes : List ℕ) × (encode tag body ≡ ok bytes)))
  unfolding encode
  encode_cases body = elim (dec_lt (max_payload tag) (length body)) [
    | yes p ↦ inl (p, ground arith)
    | no n ↦ inr (
      omega arith,
      (frame_version ∷ as_u8 tag ∷ (to_be_bytes (length body) ++ body), ground arith),
    )
  ]

  read_part :
      (body bytes : List ℕ)
      → IsOpen
      → body_of env payload ≡ ok body
      → length body ≤ max_payload tag
      → encode tag body ≡ ok bytes
      → (writes body).0 ≡ ok tt
      → Ends (exchange_open env tag payload s)
  unfolding exchange_open send_frame receive_frame or_poison_from poison poisoned
  read_part body bytes o p l q h = elim (Result-cases (reads (writes body).1).0) [
    | inr (e, g) ↦ subst Ends (sym (rw (p, q, h, g, o.0) refl)) (unanswered body e o p l h g)
    | inl (frame, g) ↦ subst Ends (sym (rw (p, q, h, g) refl)) (answered body frame o p l h g)
  ]

  exchange_open-Ends : IsOpen → Ends (exchange_open env tag payload s)
  unfolding exchange_open send_frame receive_frame or_poison_from poison poisoned
  exchange_open-Ends o = elim (Result-cases (body_of env payload)) [
    | inr (e, p) ↦ subst Ends (sym (rw p refl)) (unencoded e o p)
    | inl (body, p) ↦ elim (encode_cases body) [
      | inl (l, q) ↦ subst Ends (sym (rw (p, q) refl)) (oversized body o p l)
      | inr (l, (bytes, q)) ↦ elim (Result-cases (writes body).0) [
        | inr (e, h) ↦ subst Ends (sym (rw (p, q, h, o.0) refl)) (unsent body e o p l h)
        | inl (u, h) ↦ read_part body bytes o p l q h
      ]
    ]
  ]

  -- An exchange by cases. On a connection that was dropped or closed it fails at once, and so it does
  -- when its body cannot be encoded or is above the ceiling of its tag: nothing is sent or read, and
  -- the session stays as it was. A write that fails, and a read that fails after it, ruin the
  -- connection: the socket is shut down, the transaction is over, and the failure is the fault. Else
  -- the frame that was read is the answer, and the client is as it was.
  pub exchange_outcome : Exchanges (exchange env tag payload s).0 (exchange env tag payload s).1
  unfolding exchange exchange_as
  exchange_outcome = go s.client.fault s.client.closed refl refl
    where
      go :
          (fault : Option Error) (closed : Bool)
          → s.client.fault ≡ fault
          → s.client.closed ≡ closed
          → Ends (exchange_as env fault closed tag payload s)
      go (some f) c p q = dropped f p
      go none true p q = over p q
      go none false p q = exchange_open-Ends (p, q)
