-- ===== src/Client/Tests.antt =====
-- Exchanges of clients with a scripted server, which answers one of them and is silent to the other.
use tricoredb_sdk_rust.Common.{[], false, none, some}
use tricoredb_sdk_rust.Environment.Scripted.{scripted}
use tricoredb_sdk_rust.Frame.{Tag}
use tricoredb_sdk_rust.Json.{Value}
use tricoredb_sdk_rust.Client.{exchange}
use tricoredb_sdk_rust.Client.Fixtures.{session_with, response_frame}
use tricoredb_sdk_rust.Client.Poison.Cases.{Exchanges, exchange_outcome}

exchange_outcome_example :
    let s = session_with false none (response_frame 1 []) in
    Exchanges scripted Tag.request
      (some Value.null)
      s
      (exchange scripted Tag.request (some Value.null) s).0
      (exchange scripted Tag.request (some Value.null) s).1
exchange_outcome_example =
    exchange_outcome scripted Tag.request (some Value.null)
      (session_with false none (response_frame 1 []))
