-- ===== src/Client.antt =====
-- client.rs: the state of a session, one exchange of frames, the poisoning of a connection whose
-- frames may be out of step, and the goodbye.
pub mod Poison
pub mod Fixtures
mod Tests
pub mod Replies
pub mod Closing
pub mod Connecting
pub mod Prefix
pub mod Sending
use tricoredb_sdk_rust.Act.{Act, lift, raise, pure, continue, ◌>>=◌, ◌>>◌}
use tricoredb_sdk_rust.Common.{
  ℕ, zero, suc, ◌+◌, ◌/◌, ◌^◌, ◌-◌, min, Bool, true, false, not, ◌&&◌, List, [], ◌∷◌, ◌++◌, Option,
  none, some, Text, codes, ◌==◌, filter_option, is_empty, is_some, text_eq, if◌then◌else◌,
}
use tricoredb_sdk_rust.Environment.{
  Environment, Transport, set_transport_read_timeout, set_transport_write_timeout,
  shutdown_transport,
}
use tricoredb_sdk_rust.Failure.{
  Error, ErrorKind, Result, ok, err, new_error, invalid, protocol_error,
}
use tricoredb_sdk_rust.Frame.{Frame, Tag, as_u8, encode, tag_name}
use tricoredb_sdk_rust.Frame
use tricoredb_sdk_rust.Json.{Value, as_str, get, tagged}
use tricoredb_sdk_rust.Options.{
  Options, Duration, has_feature, feature_server_params, feature_session_txn, from_secs,
}
use tricoredb_sdk_rust.Response.{Parsed, parsed, malformed, parsed_or}

abbrev pub protocol_name : Text
protocol_name = codes "tricore"

abbrev pub protocol_version : ℕ
protocol_version = 1

abbrev pub close_timeout : Duration
close_timeout = from_secs 2

abbrev pub max_leader_retry_delay : Duration
max_leader_retry_delay = from_secs 2

abbrev pub follow_connect_timeout : Duration
follow_connect_timeout = from_secs 3

pub record Client (S T : Type 0) : Type 0 where
  pub transport : Transport S T
  pub database : Text
  pub session_id : Option Text
  pub granted_features : ℕ
  pub txn_open : Bool
  pub request_counter : ℕ
  pub request_id_prefix : Text
  pub last_request_id : Option Text
  pub request_timeout_ms : Option ℕ
  pub request_txn : Option Text
  pub read_timeout : Option Duration
  pub fault : Option Error
  pub closed : Bool
  pub options : Options
  pub address : Text

-- A client and the world that its calls act on.
pub record Session (W S T : Type 0) : Type 0 where
  pub client : Client S T
  pub world : W

in_millis : Option Duration → Option ℕ
in_millis none = none
in_millis (some d) = some (min (d / 1000000) (2 ^ 64 - 1))

same_txn : Option Text → Text → Bool
same_txn none txn = false
same_txn (some t) txn = text_eq t txn

encoded : Parsed (List ℕ) → Result (List ℕ)
encoded (parsed bytes) = ok bytes
encoded (malformed e) = err (invalid (codes "cannot encode the request: " ++ e))

module _ {S T : Type 0} where
  pub server_params_granted : Client S T → Bool
  server_params_granted c = has_feature c.granted_features feature_server_params

  unfoldable pub session_txn_granted : Client S T → Bool
  session_txn_granted c = has_feature c.granted_features feature_session_txn

  unfoldable pub in_transaction : Client S T → Bool
  in_transaction c = c.txn_open && not (is_some c.fault) && not c.closed

  unfoldable pub is_poisoned : Client S T → Bool
  is_poisoned c = is_some c.fault

  -- `Client::set_request_timeout`: milliseconds, at most `u64::MAX`.
  pub set_request_timeout : Option Duration → Client S T → Client S T
  unfolding in_millis
  set_request_timeout timeout c = record c {
    request_timeout_ms = in_millis (filter_option (λ d. not (d == 0)) timeout);
  }

  pub set_request_txn : Option Text → Client S T → Client S T
  set_request_txn txn c = record c { request_txn = filter_option (λ t. not (is_empty t)) txn }

  pub forget_txn : Text → Client S T → Client S T
  unfolding same_txn
  forget_txn txn c = if same_txn c.request_txn txn then record c { request_txn = none } else c

module _ {W A S T : Type 0} (env : Environment W A S T) where
  abbrev pub Call : Type 0 → Type 0
  Call B = Act (Session W S T) B

  -- An action of the transport, which leaves the client's own fields alone.
  abbrev pub on_world : {B : Type 0} → (Transport S T → Act W B) → Call B
  on_world m s =
      ((m s.client.transport s.world).0, record s { world = (m s.client.transport s.world).1 })

  unfoldable pub set_txn_open : Bool → Call (Unit {0})
  set_txn_open open_now s = (ok tt, record s { client = record s.client { txn_open = open_now } })

  -- The socket goes, and the first fault stays.
  poisoned : Option Error → Error → Session W S T → Session W S T
  poisoned (some f) e s = s
  poisoned none e s = record {
    client = record s.client { txn_open = false; fault = some e };
    world = shutdown_transport env s.client.transport s.world;
  }

  -- `Err(self.poison(error))`.
  pub poison : {B : Type 0} → Error → Call B
  unfolding poisoned
  poison e s = (err e, poisoned s.client.fault e s)

  or_poison_from : {B : Type 0} → Result B → Call B
  or_poison_from (ok b) s = (ok b, s)
  or_poison_from (err e) s = poison e s

  abbrev or_poison : {B : Type 0} → Call B → Call B
  or_poison m s = or_poison_from (m s).0 (m s).1

  pub body_of : Option Value → Result (List ℕ)
  body_of none = ok []
  body_of (some v) = encoded (env.to_vec v)

  pub dropped_error : Error → Error
  dropped_error fault = new_error ErrorKind.closed (
      codes "this connection was dropped after an earlier failure and cannot be reused: "
      ++ fault.message)

  pub closed_error : Error
  closed_error = new_error ErrorKind.closed (codes "this connection is closed")

  pub send_frame : Tag → List ℕ → Call (Unit {0})
  send_frame tag body = on_world λ t. Frame.write_frame (env.write_all t) (env.flush t) tag body

  pub receive_frame : Call Frame
  receive_frame = on_world λ t. Frame.read_frame (env.read_exact t)

  exchange_open : Tag → Option Value → Call Frame
  unfolding send_frame receive_frame or_poison_from
  exchange_open tag payload = do
    body ← lift (body_of payload)
    _ ← lift (encode tag body)
    or_poison (send_frame tag body)
    or_poison receive_frame

  exchange_as : Option Error → Bool → Tag → Option Value → Call Frame
  exchange_as (some fault) closed tag payload = raise (dropped_error fault)
  exchange_as none true tag payload = raise closed_error
  exchange_as none false tag payload = exchange_open tag payload

  -- Write one frame and read its reply.
  pub exchange : Tag → Option Value → Call Frame
  unfolding exchange_as exchange_open
  exchange tag payload s = exchange_as s.client.fault s.client.closed tag payload s

  -- Bound each later wait for a reply.
  pub set_read_timeout : Option Duration → Call (Unit {0})
  set_read_timeout timeout = do
    let bound = filter_option (λ d. not (d == 0)) timeout
    λ s. (ok tt, record s { client = record s.client { read_timeout = bound } })
    on_world (λ t. set_transport_read_timeout env t bound)
