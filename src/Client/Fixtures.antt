-- ===== src/Client/Fixtures.antt =====
-- Clients for tests.
use tricoredb_sdk_rust.Common.{ℕ, List, ◌∷◌, Bool, false, Option, none, codes}
use tricoredb_sdk_rust.Environment.{tcp}
use tricoredb_sdk_rust.Failure.{Error, ErrorKind, new_error}
use tricoredb_sdk_rust.Options.{default_options}
use tricoredb_sdk_rust.Client.{Client, Session}

-- A client with the given transaction flag and fault.
abbrev pub client_with : Bool → Option Error → Client (Unit {0}) (Unit {0})
client_with txn_open fault = record {
  transport = tcp tt;
  database = codes "main";
  session_id = none;
  granted_features = 7;
  txn_open = txn_open;
  request_counter = 0;
  request_id_prefix = codes "p";
  last_request_id = none;
  request_timeout_ms = none;
  request_txn = none;
  read_timeout = none;
  fault = fault;
  closed = false;
  options = default_options (codes "test");
  address = codes "127.0.0.1:8427";
}

abbrev pub some_fault : Error
some_fault = new_error ErrorKind.io (codes "reset")

abbrev pub session_with : Bool → Option Error → List ℕ → Session (List ℕ) (Unit {0}) (Unit {0})
session_with txn_open fault bytes = record { client = client_with txn_open fault; world = bytes }

-- A `RESPONSE` frame whose body is one byte.
abbrev pub response_frame : ℕ → List ℕ → List ℕ
response_frame k rest = 1 ∷ 3 ∷ 0 ∷ 0 ∷ 0 ∷ 1 ∷ k ∷ rest
