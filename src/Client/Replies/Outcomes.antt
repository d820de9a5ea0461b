-- ===== src/Client/Replies/Outcomes.antt =====
-- What a reply's tag, PING and CANCEL leave of the client.
use tricoredb_sdk_rust.Act.{pure}
use tricoredb_sdk_rust.Common.{refl, inl, inr, none, Text, Bool-cases, if◌then◌else◌, ◌==◌, codes}
use tricoredb_sdk_rust.Environment.{Environment}
use tricoredb_sdk_rust.Failure.{ErrorKind}
use tricoredb_sdk_rust.Frame.{Frame, Tag, as_u8}
use tricoredb_sdk_rust.Frame.Faults.{NoCode}
use tricoredb_sdk_rust.Client.{Session, exchange, poison}
use tricoredb_sdk_rust.Client.Poison.{
  Exchanged, exchange-Exchanged, Exchanged-bind, poison-Exchanged,
}
use tricoredb_sdk_rust.Client.Replies.{check_reply, refusal, unexpected, ping}

module _ {W A S T : Type 0} (env : Environment W A S T) where
  unexpected-NoCode : (name : Text) (t : Tag) → NoCode (unexpected env name t)
  unfolding unexpected
  unexpected-NoCode name t = refl

  pub check_reply-Exchanged :
      (want : Tag) (name : Text) (k : ErrorKind) (frame : Frame) (s : Session W S T)
      → Exchanged s (check_reply env want name k frame s)
  unfolding check_reply
  check_reply-Exchanged want name k frame s = elim (Bool-cases (as_u8 frame.tag == as_u8 want)) [
    | inl e ↦ rw e (inl (tt, s.world, refl))
    | inr e ↦ rw e (elim (Bool-cases (as_u8 frame.tag == as_u8 Tag.error)) [
      | inl f ↦ rw f (inr (inl (refusal env k frame.payload, s.world, refl)))
      | inr f ↦ rw f (
          poison-Exchanged env (unexpected env name frame.tag) s (unexpected-NoCode name frame.tag))
    ])
  ]

  -- A PING leaves the client as it was, or poisons it.
  pub ping-Exchanged : (s : Session W S T) → Exchanged s (ping env s)
  unfolding ping
  ping-Exchanged s =
      Exchanged-bind env (exchange env Tag.ping none) _ s (exchange-Exchanged env _ _ s)
        λ frame w. answered frame (record s { world = w })
    where
      answered :
          (frame : Frame) (t : Session W S T)
          → Exchanged t (
              (if as_u8 frame.tag == as_u8 Tag.pong
                  then pure tt
                  else poison env (unexpected env (codes "PONG") frame.tag))
                t)
      answered frame t = elim (Bool-cases (as_u8 frame.tag == as_u8 Tag.pong)) [
        | inl e ↦ rw e (inl (tt, t.world, refl))
        | inr e ↦ rw e (poison-Exchanged env _ t (unexpected-NoCode (codes "PONG") frame.tag))
      ]
