-- ===== src/Environment.antt =====
-- What the client calls and does not implement: sockets, rustls, the clock, and serde_json, as one
-- record of operations on a world `W`, with `A` for addresses, `S` for TCP streams and `T` for TLS
-- streams. Its first part is transport.rs.
pub mod Scripted
use tricoredb_sdk_rust.Act.{Act, call, lift, pure, raise, ◌>>=◌, ◌>>◌, continue}
use tricoredb_sdk_rust.Common.{
  ℕ, zero, suc, Bool, true, false, not, List, [], ◌∷◌, ◌++◌, Option, none, some, Text, codes,
  show_nat, ◌==◌, filter_option, is_empty, if◌then◌else◌,
}
use tricoredb_sdk_rust.Common.Int.{ℤ}
use tricoredb_sdk_rust.Failure.{
  Error, ErrorKind, Result, ok, err, IoError, IoResult, done, failed, new_error,
}
use tricoredb_sdk_rust.Json.{Value}
use tricoredb_sdk_rust.Options.{Duration, TlsOptions}
use tricoredb_sdk_rust.Response.{Parsed}

pub data Transport (S T : Type 0) : Type 0 where
  tcp : S → Transport S T
  tls : T → Transport S T

-- The bodies that serde derives readers for, each field with its default.
pub record HelloOk : Type 0 where
  pub ok : Bool
  pub message : Text
  pub features : ℕ

pub record AuthOk : Type 0 where
  pub ok : Bool
  pub session_id : Option Text
  pub message : Text

pub record Diagnostics : Type 0 where
  pub route : Option Text
  pub elapsed_ms : Option ℤ
  pub warnings : List Text
  pub error_code : Option Text
  pub leader_hint : Option Text

pub record WireResponse : Type 0 where
  pub request_id : Text
  pub status : Text
  pub data_value : Value
  pub diagnostics : Option Diagnostics

pub record Environment (W A S T : Type 0) : Type 0 where
  -- std::net and std::thread
  pub to_socket_addrs : Text → ℕ → W → IoResult (List A) × W
  pub connect_tcp : A → Option Duration → W → IoResult S × W
  pub set_nodelay : S → W → W
  pub set_read_timeout : S → Option Duration → W → IoResult (Unit {0}) × W
  pub set_write_timeout : S → Option Duration → W → IoResult (Unit {0}) × W
  pub shutdown : S → W → W
  pub read_exact : Transport S T → ℕ → W → IoResult (List ℕ) × W
  pub write_all : Transport S T → List ℕ → W → IoResult (Unit {0}) × W
  pub flush : Transport S T → W → IoResult (Unit {0}) × W
  pub sleep : Duration → W → W
  -- the process id, the nanoseconds since the epoch if it is past, and the counter of connections
  -- before it is raised
  pub process_id : W → ℕ
  pub since_epoch : W → Option ℕ × W
  pub fetch_sequence : W → ℕ × W
  -- rustls
  pub get_ref : T → S
  pub wrap : S → TlsOptions → W → Result (Transport S T) × W
  -- serde_json
  pub to_vec : Value → Parsed (List ℕ)
  pub to_string : Value → Text
  pub from_slice : List ℕ → Parsed Value
  pub hello_ok_body : List ℕ → Parsed HelloOk
  pub auth_ok_body : List ℕ → Parsed AuthOk
  pub response_body : List ℕ → Parsed WireResponse
  pub cancel_ok_body : List ℕ → Parsed ℕ
  pub from_utf8_lossy : List ℕ → Text

module _ {W A S T : Type 0} (env : Environment W A S T) where
  -- The underlying socket.
  socket : Transport S T → S
  socket (tcp s) = s
  socket (tls t) = env.get_ref t

  abbrev is_zero : Duration → Bool
  is_zero d = d == 0

  unfoldable pub set_transport_read_timeout : Transport S T → Option Duration → Act W (Unit {0})
  unfolding socket
  set_transport_read_timeout t timeout =
      call (env.set_read_timeout (socket t) (filter_option (λ d. not (is_zero d)) timeout))

  unfoldable pub set_transport_write_timeout : Transport S T → Option Duration → Act W (Unit {0})
  unfolding socket
  set_transport_write_timeout t timeout =
      call (env.set_write_timeout (socket t) (filter_option (λ d. not (is_zero d)) timeout))

  pub shutdown_transport : Transport S T → W → W
  unfolding socket
  shutdown_transport t = env.shutdown (socket t)

  -- The time that one attempt to connect may take: a bound of zero is none.
  pub attempt_timeout : Option Duration → Option Duration
  attempt_timeout = filter_option (λ d. not (is_zero d))

  pub dial_failed : Text → ℕ → Text → Error
  dial_failed host port e =
      new_error ErrorKind.io (
        codes "cannot connect to " ++ (host ++ (codes ":" ++ (show_nat port ++ (codes ": " ++ e)))))

  -- The loop over the addresses, at `a` with `addrs` to come: the last error is reported.
  dial_loop : Text → ℕ → Option Duration → A → List A → Act W S
  dial_loop host port timeout a [] w =
      let (r, w') = env.connect_tcp a (attempt_timeout timeout) w in
      elim r [
        | done s ↦ (ok s, env.set_nodelay s w')
        | failed e ↦ (err (dial_failed host port e.text), w')
      ]
  dial_loop host port timeout a (b ∷ addrs) w =
      let (r, w') = env.connect_tcp a (attempt_timeout timeout) w in
      elim r [
        | done s ↦ (ok s, env.set_nodelay s w')
        | failed e ↦ dial_loop host port timeout b addrs w'
      ]

  pub place : Text → ℕ → Text
  place host port = host ++ (codes ":" ++ show_nat port)

  dial_addresses : Text → ℕ → Option Duration → List A → Act W S
  dial_addresses host port timeout [] =
      raise (new_error ErrorKind.io (place host port ++ codes " resolved to no addresses"))
  dial_addresses host port timeout (a ∷ addrs) = dial_loop host port timeout a addrs

  resolved : Text → ℕ → IoResult (List A) → Result (List A)
  resolved host port (done addrs) = ok addrs
  resolved host port (failed e) = err (
      new_error ErrorKind.io
        (codes "cannot resolve " ++ (place host port ++ (codes ": " ++ e.text))))

  unfoldable pub dial : Text → ℕ → Option Duration → Act W S
  unfolding dial_addresses dial_loop resolved
  dial host port timeout = do
    addrs ← λ w. let (r, w') = env.to_socket_addrs host port w in (resolved host port r, w')
    dial_addresses host port timeout addrs
