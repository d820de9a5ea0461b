-- ===== src/Client/Closing.antt =====
-- client.rs: the end of a session, by `close` or by a drop.
use tricoredb_sdk_rust.Common.{◌≡◌, refl, true, false, [], Option, none, some, if◌then◌else◌}
use tricoredb_sdk_rust.Environment.{
  Environment, set_transport_read_timeout, set_transport_write_timeout, shutdown_transport,
}
use tricoredb_sdk_rust.Failure.{Error}
use tricoredb_sdk_rust.Frame.{Tag}
use tricoredb_sdk_rust.Client.{Session, on_world, send_frame, receive_frame, close_timeout}

module _ {W A S T : Type 0} (env : Environment W A S T) where
  shut : Session W S T → Session W S T
  shut s = record s { world = shutdown_transport env s.client.transport s.world }

  -- The goodbye: every step's failure is ignored, and the socket goes last.
  say_goodbye : Session W S T → Session W S T
  unfolding shut
  say_goodbye s =
      let s1 = (on_world env (λ t. set_transport_read_timeout env t (some close_timeout)) s).1 in
      let s2 = (on_world env (λ t. set_transport_write_timeout env t (some close_timeout)) s1).1 in
      let s3 = (send_frame env Tag.close [] s2).1 in shut (receive_frame env s3).1

  farewell : Option Error → Session W S T → Session W S T
  unfolding say_goodbye shut
  farewell (some fault) s = shut s
  farewell none s = say_goodbye s

  -- `Client::close`, and what dropping a client does.
  pub close_inner : Session W S T → Session W S T
  unfolding farewell
  close_inner s =
      if s.client.closed
      then s
      else farewell s.client.fault
          (record s { client = record s.client { closed = true; txn_open = false } })

  -- A client that is closed is not closed again: nothing is sent.
  pub close_inner-closed : (s : Session W S T) → s.client.closed ≡ true → close_inner s ≡ s
  unfolding close_inner
  close_inner-closed s h = rw h refl
