-- ===== src/Sql/Whole.antt =====
-- sql.rs: a whole transaction in one request.
use tricoredb_sdk_rust.Act.{lift, ◌>>=◌}
use tricoredb_sdk_rust.Common.{List, codes}
use tricoredb_sdk_rust.Environment.{Environment}
use tricoredb_sdk_rust.Response.{decode}
use tricoredb_sdk_rust.Client.{Call}
use tricoredb_sdk_rust.Sql.{SqlCodec, TransactionResult, execute_params}
use tricoredb_sdk_rust.Sql.Script.{Statement, build_transaction_script}

module _ {W A S T : Type 0} (env : Environment W A S T) (codec : SqlCodec) where
  pub transaction : List Statement → Call env TransactionResult
  transaction statements = do
    script ← lift (build_transaction_script statements)
    response ← execute_params env codec script.0 script.1
    lift (decode codec.result_value response (codes "transaction"))
