-- ===== src/Client/Connecting.antt =====
-- client.rs: `Client::connect`, with the handshake and the authentication.
pub mod Fresh
mod Tests
use tricoredb_sdk_rust.Act.{Act, lift, pure, ◌>>=◌, ◌>>◌}
use tricoredb_sdk_rust.Address.{join_address}
use tricoredb_sdk_rust.Common.{
  ℕ, false, [], Option, none, some, Text, codes, is_empty, unwrap_or, utf8, if◌then◌else◌,
}
use tricoredb_sdk_rust.Environment.{
  Environment, Transport, tcp, HelloOk, AuthOk, dial, set_transport_read_timeout,
  set_transport_write_timeout,
}
use tricoredb_sdk_rust.Failure.{ErrorKind, Result, ok, err, new_error}
use tricoredb_sdk_rust.Frame.{Tag}
use tricoredb_sdk_rust.Json.{Value, field, end, obj, string, num}
use tricoredb_sdk_rust.Options.{Options, TlsOptions, Duration, announced_features}
use tricoredb_sdk_rust.Wire.{byte_list}
use tricoredb_sdk_rust.Client.{
  Client, Session, Call, on_world, exchange, set_read_timeout, protocol_name, protocol_version,
}
use tricoredb_sdk_rust.Client.Closing.{close_inner}
use tricoredb_sdk_rust.Client.Prefix.{next_connection_prefix}
use tricoredb_sdk_rust.Client.Replies.{check_reply, parse_body}

abbrev hello_payload : Text → ℕ → Value
hello_payload client_name features = obj (
    field (codes "client") (string client_name) (
      field (codes "features") (num features) (
        field (codes "protocol") (string protocol_name) (
          field (codes "version")
            (obj (field (codes "major") (num protocol_version) (field (codes "minor") (num 0) end)))
            end))))

abbrev auth_payload : Text → Text → Value
auth_payload user secret =
    obj (
      field (codes "secret") (byte_list (utf8 secret)) (field (codes "username") (string user) end))

or_default : Text → Text → Text
or_default message default = if is_empty message then default else message

module _ {W A S T : Type 0} (env : Environment W A S T) where
  greeted : HelloOk → Call env (Unit {0})
  unfolding or_default
  greeted body s =
      if body.ok
      then (ok tt, record s { client = record s.client { granted_features = body.features } })
      else (
        err (
            new_error ErrorKind.handshake
              (or_default body.message (codes "the server refused the handshake"))),
        s,
      )

  pub hello : Text → ℕ → Call env (Unit {0})
  unfolding greeted
  hello client_name features = do
    frame ← exchange env Tag.hello (some (hello_payload client_name features))
    check_reply env Tag.hello_ok (codes "HELLO_OK") ErrorKind.handshake frame
    body ← lift (parse_body env env.hello_ok_body frame.payload (codes "HELLO_OK"))
    greeted body

  admitted : AuthOk → Call env (Unit {0})
  unfolding or_default
  admitted body s =
      if body.ok
      then (ok tt, record s { client = record s.client { session_id = body.session_id } })
      else (
        err (new_error ErrorKind.auth (or_default body.message (codes "authentication refused"))),
        s,
      )

  pub auth : Text → Text → Call env (Unit {0})
  unfolding admitted
  auth user secret = do
    frame ← exchange env Tag.auth (some (auth_payload user secret))
    check_reply env Tag.auth_ok (codes "AUTH_OK") ErrorKind.auth frame
    body ← lift (parse_body env env.auth_ok_body frame.payload (codes "AUTH_OK"))
    admitted body

  log_in : Option Text → Option Text → Call env (Unit {0})
  log_in none secret = pure tt
  log_in (some user) secret = auth user (unwrap_or secret [])

  -- The connect budget covers the TLS handshake too.
  secured : Option TlsOptions → Option Duration → S → Act W (Transport S T)
  secured none timeout stream = pure (tcp stream)
  secured (some options) timeout stream = do
    set_transport_read_timeout env (tcp stream) timeout
    set_transport_write_timeout env (tcp stream) timeout
    env.wrap stream options

  new_client : Options → Transport S T → Text → Client S T
  new_client o transport prefix = record {
    transport = transport;
    database = o.database;
    session_id = none;
    granted_features = 0;
    txn_open = false;
    request_counter = 0;
    request_id_prefix = prefix;
    last_request_id = none;
    request_timeout_ms = none;
    request_txn = none;
    read_timeout = none;
    fault = none;
    closed = false;
    options = o;
    address = join_address o.host o.port;
  }

  handshake : Options → Call env (Unit {0})
  unfolding log_in
  handshake o = do
    on_world env (λ t. set_transport_read_timeout env t o.connect_timeout)
    on_world env (λ t. set_transport_write_timeout env t o.connect_timeout)
    hello o.client_name (announced_features o)
    log_in o.user o.secret
    on_world env (λ t. set_transport_write_timeout env t none)
    set_read_timeout env o.read_timeout

  -- The client of a handshake that went through; one that did not is dropped.
  settled : Result (Unit {0}) → Session W S T → Result (Client S T) × W
  settled (ok _) s = (ok s.client, s.world)
  settled (err e) s = (err e, (close_inner env s).world)

  shake_hands : Options → Transport S T → Act W (Client S T)
  unfolding handshake settled new_client
  shake_hands o transport w =
      let (prefix, w') = next_connection_prefix env w in
      let (r, s) = handshake o (record { client = new_client o transport prefix; world = w' }) in
      settled r s

  pub connect : Options → Act W (Client S T)
  unfolding secured shake_hands
  connect o = do
    stream ← dial env o.host o.port o.connect_timeout
    transport ← secured o.tls o.connect_timeout stream
    shake_hands o transport
