-- ===== src/Client/Connecting/Tests.antt =====
-- A connection to a scripted server that greets the client.
use tricoredb_sdk_rust.Address.{join_address}
use tricoredb_sdk_rust.Common.{ℕ, ◌≡◌, refl, List, [], ◌∷◌, false, none, codes}
use tricoredb_sdk_rust.Environment.Scripted.{scripted}
use tricoredb_sdk_rust.Failure.{ok}
use tricoredb_sdk_rust.Options.{Options, default_options}
use tricoredb_sdk_rust.Client.{Client}
use tricoredb_sdk_rust.Client.Fixtures.{client_with}
use tricoredb_sdk_rust.Client.Connecting.{connect}
use tricoredb_sdk_rust.Client.Connecting.Fresh.{IsFresh, connect-IsFresh}

abbrev options : Options
options = default_options (codes "test")

abbrev greeting : List ℕ
greeting = 1 ∷ 8 ∷ 0 ∷ 0 ∷ 0 ∷ 0 ∷ []

abbrev greeted_client : Client (Unit {0}) (Unit {0})
greeted_client = record (client_with false none) {
  address = join_address options.host options.port;
  request_id_prefix = codes "100";
}

greets : (connect scripted options greeting).0 ≡ ok greeted_client
unfolding connect codes tricoredb_sdk_rust.Client.Prefix.next_connection_prefix
    tricoredb_sdk_rust.Client.Prefix.prefix_text tricoredb_sdk_rust.Client.Prefix.stamp_of
    tricoredb_sdk_rust.Client.Prefix.show_hex tricoredb_sdk_rust.Client.Prefix.hex_of
    tricoredb_sdk_rust.Client.Prefix.hex_char tricoredb_sdk_rust.Environment.dial default_options
    tricoredb_sdk_rust.Environment.set_transport_read_timeout
    tricoredb_sdk_rust.Environment.set_transport_write_timeout
    tricoredb_sdk_rust.Client.Connecting.hello tricoredb_sdk_rust.Client.exchange
    tricoredb_sdk_rust.Client.body_of tricoredb_sdk_rust.Client.encoded
    tricoredb_sdk_rust.Frame.encode tricoredb_sdk_rust.Frame.max_payload
    tricoredb_sdk_rust.Frame.write_frame tricoredb_sdk_rust.Frame.read_frame
    tricoredb_sdk_rust.Client.Replies.check_reply tricoredb_sdk_rust.Frame.as_u8
    tricoredb_sdk_rust.Client.Replies.parse_body tricoredb_sdk_rust.Client.set_read_timeout
greets = refl

connect-IsFresh_example : IsFresh options greeted_client
connect-IsFresh_example = connect-IsFresh scripted options greeting greeted_client greets
