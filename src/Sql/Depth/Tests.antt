-- ===== src/Sql/Depth/Tests.antt =====
-- Keywords to a scripted server.
use tricoredb_sdk_rust.Common.{zero, suc, ◌≡◌, refl, true, none, codes}
use tricoredb_sdk_rust.Environment.Scripted.{scripted}
use tricoredb_sdk_rust.Response.{decode}
use tricoredb_sdk_rust.Client.Sending.Tests.{reply, send_answered}
use tricoredb_sdk_rust.Sql.{execute, transaction_control}
use tricoredb_sdk_rust.Sql.Tests.{codec, idle, nested_script, result_at}
use tricoredb_sdk_rust.Sql.Depth.{Replies, opened, rest, Controls-Follows}

begin_answered : Replies scripted codec (codes "BEGIN") (idle nested_script) (result_at none)
unfolding execute tricoredb_sdk_rust.Sql.execute_params tricoredb_sdk_rust.Sql.sql_body
    tricoredb_sdk_rust.Response.decode tricoredb_sdk_rust.Response.expect
    tricoredb_sdk_rust.Common.codes tricoredb_sdk_rust.Common.text_eq
begin_answered = (reply 0, rw (send_answered _) refl, refl)

Controls-Follows_example :
    (transaction_control scripted codec (codes "BEGIN") (idle nested_script)).1.client.txn_open
    ≡ true
Controls-Follows_example =
    Controls-Follows scripted codec zero (suc zero) (idle nested_script)
      (transaction_control scripted codec (codes "BEGIN") (idle nested_script)).1
      (opened zero (suc zero) (idle nested_script) _ (result_at none) begin_answered
        (rest (suc zero) _))
      refl
