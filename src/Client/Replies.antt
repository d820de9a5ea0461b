-- ===== src/Client/Replies.antt =====
-- client.rs: how replies are read, and the two calls that are no requests, PING and CANCEL.
pub mod Outcomes
use tricoredb_sdk_rust.Act.{Act, lift, raise, pure, continue, ◌>>=◌, ◌>>◌}
use tricoredb_sdk_rust.Common.{
  ℕ, Bool, true, false, not, List, [], ◌∷◌, ◌++◌, Option, none, some, Text, codes, ◌==◌,
  filter_option, is_empty, if◌then◌else◌,
}
use tricoredb_sdk_rust.Environment.{
  Environment, Transport, set_transport_read_timeout, set_transport_write_timeout,
  shutdown_transport,
}
use tricoredb_sdk_rust.Failure.{Error, ErrorKind, Result, ok, err, invalid, protocol_error}
use tricoredb_sdk_rust.Frame.{Frame, Tag, as_u8, tag_name}
use tricoredb_sdk_rust.Json.{Value, as_str, get, tagged}
use tricoredb_sdk_rust.Response.{Parsed, parsed, malformed, parsed_or}
use tricoredb_sdk_rust.Client.{
  Client, Session, Call, on_world, poison, exchange, send_frame, receive_frame, close_timeout,
}

-- The human-readable text of a parsed `ERROR` frame: its message, else its error, else all of it.
text_field : Option Value → Option Text
text_field none = none
text_field (some v) = filter_option (λ t. not (is_empty t)) (as_str v)

first_text : Option Text → Option Text → Text → Text
first_text (some t) second whole = t
first_text none (some t) whole = t
first_text none none whole = whole

module _ {W A S T : Type 0} (env : Environment W A S T) where
  parsed_text : Parsed Value → List ℕ → Text
  unfolding first_text text_field
  parsed_text (malformed e) payload = env.from_utf8_lossy payload
  parsed_text (parsed v) payload =
      first_text (text_field (get v (codes "message"))) (text_field (get v (codes "error")))
        (env.to_string v)

  pub error_text : List ℕ → Text
  unfolding parsed_text
  error_text payload =
      if is_empty payload
      then codes "the server refused the connection without saying why"
      else parsed_text (env.from_slice payload) payload

  parsed_code : Parsed Value → Option Text
  unfolding text_field
  parsed_code (malformed e) = none
  parsed_code (parsed v) = text_field (get v (codes "code"))

  -- The machine-readable code of an `ERROR` frame, when it carries one.
  pub error_code : List ℕ → Option Text
  unfolding parsed_code
  error_code payload = parsed_code (env.from_slice payload)

  pub refusal : ErrorKind → List ℕ → Error
  refusal k payload = record {
    kind = k;
    code = error_code payload;
    message = error_text payload;
    leader_hint = none;
  }

  pub unexpected : Text → Tag → Error
  unexpected want got =
      protocol_error (codes "expected " ++ (want ++ (codes ", got " ++ tag_name got)))

  -- The match on a reply's tag: the wanted one, an `ERROR` frame as a refusal of kind `k`, and any
  -- other poisons the connection.
  unfoldable pub check_reply : Tag → Text → ErrorKind → Frame → Call env (Unit {0})
  check_reply want name k frame =
      if as_u8 frame.tag == as_u8 want
      then pure tt
      else if as_u8 frame.tag == as_u8 Tag.error
      then raise (refusal k frame.payload)
      else poison env (unexpected name frame.tag)

  unfoldable pub parse_body : {B : Type 0} → (List ℕ → Parsed B) → List ℕ → Text → Result B
  parse_body read payload what =
      parsed_or (read payload) (codes "malformed " ++ (what ++ codes " body: "))

  -- Check liveness with a PING/PONG round trip: here an `ERROR` frame is unexpected too.
  pub ping : Call env (Unit {0})
  ping = do
    frame ← exchange env Tag.ping none
    if as_u8 frame.tag == as_u8 Tag.pong
        then pure tt
        else poison env (unexpected (codes "PONG") frame.tag)

  pub cancel : Text → Call env ℕ
  cancel request_id =
      if is_empty request_id
      then raise (invalid (codes "a request id to cancel must not be empty"))
      else do
        frame ←
            exchange env Tag.cancel (some (tagged (codes "request_id") (Value.string request_id)))
        check_reply Tag.cancel_ok (codes "CANCEL_OK") ErrorKind.server frame
        lift (parse_body env.cancel_ok_body frame.payload (codes "CANCEL_OK"))
