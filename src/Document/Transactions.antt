-- ===== src/Document/Transactions.antt =====
-- document.rs: explicit transactions.
use tricoredb_sdk_rust.Act.{lift, pure, ◌>>=◌}
use tricoredb_sdk_rust.Common.{Bool, [], ◌∷◌, Text, codes}
use tricoredb_sdk_rust.Environment.{Environment}
use tricoredb_sdk_rust.Json.{string, bool}
use tricoredb_sdk_rust.Json.Maps.{entry}
use tricoredb_sdk_rust.Response.{decode}
use tricoredb_sdk_rust.Client.{Call}
use tricoredb_sdk_rust.Client.Sending.Requests.{send_begin, send_ending}
use tricoredb_sdk_rust.Document.Reports.{DocumentCommit}
use tricoredb_sdk_rust.Document.Codec.{DocumentCodec}
use tricoredb_sdk_rust.Document.{op, document_op}

module _ {W A S T : Type 0} (env : Environment W A S T) (codec : DocumentCodec) where
  unfoldable pub document_begin_transaction : Bool → Call env Text
  document_begin_transaction serializable = send_begin env codec.transaction (
      document_op (codes "BeginTransaction")
        (entry (codes "serializable") (bool serializable) ∷ []))

  unfoldable pub document_commit_transaction : Text → Call env DocumentCommit
  document_commit_transaction txn = do
    r ← send_ending env (op (string (codes "CommitTransaction"))) txn
    lift (decode codec.commit r (codes "CommitTransaction"))

  unfoldable pub document_rollback_transaction : Text → Call env (Unit {0})
  document_rollback_transaction txn = do
    _ ← send_ending env (op (string (codes "RollbackTransaction"))) txn
    pure tt
