-- ===== src/Client/Sending.antt =====
-- client.rs: one request, its reply, and the following of the leader.
pub mod Outcomes
pub mod Following
pub mod Once
pub mod Moving
pub mod Requests
pub mod Tests
use tricoredb_sdk_rust.Act.{Act, lift, ◌>>=◌, ◌>>◌}
use tricoredb_sdk_rust.Address.{split_address}
use tricoredb_sdk_rust.Common.{
  ℕ, zero, suc, ◌+◌, ◌*◌, min, max, ltb, leb, Bool, true, false, not, ◌&&◌, ◌||◌, [], ◌++◌, Option,
  none, some, Text, codes, show_nat, text_eq, if◌then◌else◌, unwrap_or,
}
use tricoredb_sdk_rust.Environment.{Environment, WireResponse, Diagnostics, shutdown_transport}
use tricoredb_sdk_rust.Failure.{Error, ErrorKind, Result, ok, err, is_redirect}
use tricoredb_sdk_rust.Frame.{Tag}
use tricoredb_sdk_rust.Json.{Value, Fields, end, obj, string, num, insert_field, is_empty_map}
use tricoredb_sdk_rust.Options.{Options, TlsOptions, Duration, from_millis}
use tricoredb_sdk_rust.Response.{Response, decode_variant, failure_message}
use tricoredb_sdk_rust.Client.{
  Client, Session, Call, exchange, max_leader_retry_delay, follow_connect_timeout,
}
use tricoredb_sdk_rust.Client.Closing.{close_inner}
use tricoredb_sdk_rust.Client.Connecting.{connect}
use tricoredb_sdk_rust.Client.Replies.{check_reply, parse_body}

abbrev no_diagnostics : Diagnostics
no_diagnostics = record {
  route = none;
  elapsed_ms = none;
  warnings = [];
  error_code = none;
  leader_hint = none;
}

response_of : WireResponse → Response
response_of wire =
    let d = unwrap_or wire.diagnostics no_diagnostics in
    let (kind, payload) = decode_variant wire.data_value in
    record {
      request_id = wire.request_id;
      status = wire.status;
      kind = kind;
      data_value = payload;
      route = d.route;
      elapsed_ms = d.elapsed_ms;
      warnings = d.warnings;
      error_code = d.error_code;
      leader_hint = d.leader_hint;
    }

-- Anything but `ok` is a failure.
verdict : (Value → Text) → Response → Result Response
verdict to_string r =
    if text_eq r.status (codes "ok")
    then ok r
    else err (record {
      kind = ErrorKind.server;
      code = r.error_code;
      message = failure_message to_string r;
      leader_hint = r.leader_hint;
    })

with_timeout : Option ℕ → Fields → Fields
with_timeout none fs = fs
with_timeout (some ms) fs = insert_field (codes "timeout_ms") (num ms) fs

with_txn : Option Text → Fields → Fields
with_txn none fs = fs
with_txn (some txn) fs = insert_field (codes "txn") (string txn) fs

with_options : Fields → Fields → Fields
with_options options fs =
    if is_empty_map options then fs else insert_field (codes "options") (obj options) fs

pub envelope_of : Text → Text → Value → Option ℕ → Option Text → Value
unfolding with_timeout with_txn with_options
envelope_of request_id database op timeout_ms txn = obj (
    with_options (with_txn txn (with_timeout timeout_ms end)) (
      insert_field (codes "op") op (
        insert_field (codes "database") (string database)
          (insert_field (codes "request_id") (string request_id) end))))

-- The refusal returned after following the leader gave up.
pub retried_error : Error → ℕ → Error
retried_error e retried =
    if ltb 0 retried
    then record e {
      message =
          e.message
          ++ (codes " (sent again " ++ (show_nat retried ++ codes " times, refused each time)"));
    }
    else e

-- `(pause * 2).clamp(1 ms, 2 s)`.
pub next_pause : Duration → Duration
next_pause pause = min (max (pause * 2) (from_millis 1)) max_leader_retry_delay

-- Whether a refusal is returned rather than sent again: a session transaction cannot move.
pub gives_up : {S T : Type 0} → Client S T → ℕ → Bool
gives_up c retried =
    not c.options.follow_leader || c.txn_open || leb c.options.leader_retries retried

-- The options for a connection to the leader at `host:port`.
bounded_timeout : Option Duration → Duration
bounded_timeout none = follow_connect_timeout
bounded_timeout (some t) = min t follow_connect_timeout

named_tls : Text → Option TlsOptions → Option TlsOptions
named_tls host none = none
named_tls host (some t) = some (record t { server_name = some host })

pub leader_options : Options → Text → ℕ → Options
unfolding bounded_timeout named_tls
leader_options o host port = record o {
  host = host;
  port = port;
  connect_timeout = some (bounded_timeout o.connect_timeout);
  tls = named_tls host o.tls;
}

pub numbered : {S T : Type 0} → Client S T → Client S T
numbered c = record c {
  request_counter = c.request_counter + 1;
  last_request_id =
      some
        (codes "rs-" ++ (c.request_id_prefix ++ (codes "-" ++ show_nat (c.request_counter + 1))));
}

-- Never returned: the fuel that `send_in` gives is enough.
out_of_fuel : Error
out_of_fuel = record { kind = ErrorKind.server; code = none; message = []; leader_hint = none }

module _ {W A S T : Type 0} (env : Environment W A S T) where
  pub send_once : Value → Call env Response
  unfolding response_of verdict
  send_once envelope = do
    frame ← exchange env Tag.request (some envelope)
    check_reply env Tag.response (codes "RESPONSE") ErrorKind.refused frame
    wire ← lift (parse_body env env.response_body frame.payload (codes "RESPONSE"))
    lift (verdict env.to_string (response_of wire))

  -- The fresh connection takes the old one's place, and the old socket goes without a goodbye.
  moved : Text → Result (Client S T) → Session W S T → W → Bool × Session W S T
  moved address (err e) s w = (false, record s { world = w })
  moved address (ok fresh) s w = (
    true,
    record {
      client = record s.client {
        transport = fresh.transport;
        session_id = fresh.session_id;
        granted_features = fresh.granted_features;
        address = address;
      };
      world =
          (close_inner env (record {
            client = record fresh {
              transport = s.client.transport;
              session_id = none;
              closed = true;
            };
            world = shutdown_transport env s.client.transport w;
          })).world;
    },
  )

  move_into : Text → Option (Text × ℕ) → Session W S T → Bool × Session W S T
  unfolding moved
  move_into address none s = (false, s)
  move_into address (some (host, port)) s =
      let (r, w) = connect env (leader_options s.client.options host port) s.world in
      moved address r s w

  pub move_to : Text → Session W S T → Bool × Session W S T
  unfolding move_into
  move_to address s = move_into address (split_address address) s

  -- Where the hint leads: to the leader if it is elsewhere and can be reached.
  pub take_hint : Option Text → Session W S T → Bool × Session W S T
  take_hint none s = (false, s)
  take_hint (some hint) s = if text_eq hint s.client.address then (false, s) else move_to hint s

  -- At once on a new connection, and after a pause on the old one.
  go_on :
      (ℕ → Duration → Call env Response)
      → ℕ
      → Duration
      → Bool × Session W S T
      → Result Response × Session W S T
  go_on again retried pause (true, s) = again retried pause s
  go_on again retried pause (false, s) =
      again retried (next_pause pause) (record s { world = env.sleep pause s.world })

  follow : (ℕ → Duration → Call env Response) → ℕ → Duration → Error → Call env Response
  unfolding go_on gives_up take_hint
  follow again retried pause e s =
      if gives_up s.client retried
      then (err (retried_error e retried), s)
      else go_on again (retried + 1) pause (take_hint e.leader_hint s)

  after_attempt :
      (ℕ → Duration → Call env Response) → ℕ → Duration → Result Response → Call env Response
  after_attempt again retried pause (ok r) s = (ok r, s)
  after_attempt again retried pause (err e) s =
      if is_redirect e then follow again retried pause e s else (err e, s)

  -- The body of the loop, `again` being the next round.
  attempt : Value → (ℕ → Duration → Call env Response) → ℕ → Duration → Call env Response
  unfolding after_attempt
  attempt envelope again retried pause s =
      let (r, s') = send_once envelope s in after_attempt again retried pause r s'

  -- The loop on fuel; `Client.Following` proves that it does not run out.
  send_loop : ℕ → Value → ℕ → Duration → Call env Response
  send_loop zero envelope retried pause =
      attempt envelope (λ r p s. (err out_of_fuel, s)) retried pause
  send_loop (suc fuel) envelope retried pause =
      attempt envelope (send_loop fuel envelope) retried pause

  pub send_in : Value → Option Text → Call env Response
  unfolding numbered
  send_in op txn s =
      let c = numbered s.client in
      send_loop c.options.leader_retries
        (envelope_of (unwrap_or c.last_request_id []) c.database op c.request_timeout_ms txn) 0
        c.options.leader_retry_delay (record s { client = c })

  pub send : Value → Call env Response
  send op s = send_in op s.client.request_txn s
