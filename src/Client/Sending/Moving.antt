-- ===== src/Client/Sending/Moving.antt =====
-- What a move to the leader changes.
use tricoredb_sdk_rust.Address.{split_address}
use tricoredb_sdk_rust.Common.{ℕ, ◌≡◌, Bool, false, true, none, some, Text}
use tricoredb_sdk_rust.Environment.{Environment, shutdown_transport}
use tricoredb_sdk_rust.Failure.{Error, Result, ok, err}
use tricoredb_sdk_rust.Client.{Client, Session}
use tricoredb_sdk_rust.Client.Connecting.{connect}
use tricoredb_sdk_rust.Client.Sending.{leader_options}

module _ {W A S T : Type 0} (env : Environment W A S T) (address : Text) (s : Session W S T) where
  -- The attempt to connect to a leader at a host and port.
  abbrev reached : Text → ℕ → Result (Client S T) × W
  reached host port = connect env (leader_options s.client.options host port) s.world

  -- The client that took over a connection, and nothing else of the one that was opened for it.
  abbrev taken : Client S T → Client S T
  taken fresh = record s.client {
    transport = fresh.transport;
    session_id = fresh.session_id;
    granted_features = fresh.granted_features;
    address = address;
  }

  -- A move, by the step at which it stops.
  pub data Moves : Bool × Session W S T → Type 0 where
    unreadable : split_address address ≡ none → Moves (false, s)
    unreachable :
        (host : Text) (port : ℕ) (e : Error)
        → split_address address ≡ some (host, port)
        → (reached host port).0 ≡ err e
        → Moves (false, record s { world = (reached host port).1 })
    reached_leader :
        (host : Text) (port : ℕ) (fresh : Client S T)
        → split_address address ≡ some (host, port)
        → (reached host port).0 ≡ ok fresh
        → Moves (
          true,
          record {
            client = taken fresh;
            world = shutdown_transport env s.client.transport (reached host port).1;
          },
        )
