-- ===== src/Client/Sending/Tests.antt =====
-- Requests to a scripted server.
use tricoredb_sdk_rust.Common.{
  ℕ, ◌+◌, ◌*◌, ◌≤◌, ◌≡◌, ◌⊎◌, refl, List, [], ◌∷◌, Bool, true, false, Option, none, some, Text,
  codes, arith, unwrap_or,
}
use tricoredb_sdk_rust.Environment.Scripted.{scripted}
use tricoredb_sdk_rust.Failure.{Error, ok, err}
use tricoredb_sdk_rust.Frame
use tricoredb_sdk_rust.Json.{Value, num}
use tricoredb_sdk_rust.Options.{Duration, from_millis, from_secs}
use tricoredb_sdk_rust.Response.{Response}
use tricoredb_sdk_rust.Client.{Client, Session, dropped_error}
use tricoredb_sdk_rust.Client.Fixtures.{session_with, response_frame, some_fault}
use tricoredb_sdk_rust.Client.Sending.{
  send_once, send_in, numbered, envelope_of, send, next_pause, leader_options,
}
use tricoredb_sdk_rust.Client.Sending.Following.{Rounds, send_in-Rounds}
use tricoredb_sdk_rust.Client.Sending.Once.{send_in-txn_open, send_in-status, send_in-poisoned}

abbrev answered : Bool → Option Error → Session (List ℕ) (Unit {0}) (Unit {0})
answered txn_open fault = session_with txn_open fault (response_frame 4 [])

send_in-Rounds_example :
    let s = answered false none in
    let c = numbered s.client in
    (n : ℕ) × (n ≤ 6)
    × Rounds scripted
        (envelope_of
          (unwrap_or c.last_request_id [])
          c.database
          Value.null
          c.request_timeout_ms
          none)
        n
        0
        c.options.leader_retry_delay
        (record s { client = c })
        (send_in scripted Value.null none s)
unfolding tricoredb_sdk_rust.Options.default_options
send_in-Rounds_example = send_in-Rounds scripted Value.null none (answered false none)

send_in-txn_open_example :
    let s = answered true none in
    let c = numbered s.client in
    send_in scripted Value.null none s
    ≡ send_once scripted
        (envelope_of
          (unwrap_or c.last_request_id [])
          c.database
          Value.null
          c.request_timeout_ms
          none)
        (record s { client = c })
send_in-txn_open_example = send_in-txn_open scripted Value.null none (answered true none) refl

send_in-poisoned_example :
    let s = answered false (some some_fault) in
    send_in scripted Value.null none s
    ≡ (err (dropped_error scripted some_fault), record s { client = numbered s.client })
send_in-poisoned_example =
    send_in-poisoned scripted Value.null none (answered false (some some_fault)) some_fault refl

abbrev leader : Text
leader = codes "db2:9000"

abbrev pub reply : ℕ → Response
reply k = record {
  request_id = [];
  status = codes "ok";
  kind = codes "Json";
  data_value = num k;
  route = none;
  elapsed_ms = none;
  warnings = [];
  error_code = none;
  leader_hint = none;
}

send_in-status_example : (reply 4).status ≡ codes "ok"
unfolding tricoredb_sdk_rust.Client.Replies.check_reply tricoredb_sdk_rust.Client.Replies.parse_body
    tricoredb_sdk_rust.Frame.as_u8 tricoredb_sdk_rust.Client.Sending.verdict
    tricoredb_sdk_rust.Client.Sending.response_of tricoredb_sdk_rust.Response.decode_variant
    tricoredb_sdk_rust.Common.codes tricoredb_sdk_rust.Common.text_eq
    tricoredb_sdk_rust.Client.send_frame tricoredb_sdk_rust.Client.receive_frame send_in
    tricoredb_sdk_rust.Client.Sending.send_loop tricoredb_sdk_rust.Options.default_options
    tricoredb_sdk_rust.Client.Sending.attempt send_once tricoredb_sdk_rust.Client.exchange
    tricoredb_sdk_rust.Client.body_of tricoredb_sdk_rust.Client.encoded
    tricoredb_sdk_rust.Frame.encode tricoredb_sdk_rust.Frame.write_frame
    tricoredb_sdk_rust.Frame.read_frame
send_in-status_example =
    send_in-status scripted Value.null none (answered false none) (reply 4) refl

-- A server with two replies ready answers the first request with the first one.
pub send_answered :
    (op : Value)
    → (send scripted op (session_with false none (response_frame 0 (response_frame 1 [])))).0
      ≡ ok (reply 0)
unfolding tricoredb_sdk_rust.Client.Replies.check_reply tricoredb_sdk_rust.Client.Replies.parse_body
    tricoredb_sdk_rust.Frame.as_u8 tricoredb_sdk_rust.Client.Sending.verdict
    tricoredb_sdk_rust.Client.Sending.response_of tricoredb_sdk_rust.Response.decode_variant
    tricoredb_sdk_rust.Common.codes tricoredb_sdk_rust.Common.text_eq
    tricoredb_sdk_rust.Client.send_frame tricoredb_sdk_rust.Client.receive_frame send_in
    tricoredb_sdk_rust.Client.Sending.send_loop tricoredb_sdk_rust.Options.default_options
    tricoredb_sdk_rust.Client.Sending.attempt send_once tricoredb_sdk_rust.Client.exchange
    tricoredb_sdk_rust.Client.body_of tricoredb_sdk_rust.Client.encoded
    tricoredb_sdk_rust.Frame.encode tricoredb_sdk_rust.Frame.write_frame
    tricoredb_sdk_rust.Frame.read_frame send
send_answered op = refl
