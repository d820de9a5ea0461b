-- ===== src/Explicit.antt =====
-- The explicit transactions of document.rs and graph.rs: what each of the six operations leaves of the
-- client, on every outcome.
mod Tests
use tricoredb_sdk_rust.Common.{[], ◌∷◌, Bool, Text, codes}
use tricoredb_sdk_rust.Environment.{Environment}
use tricoredb_sdk_rust.Failure.{ok}
use tricoredb_sdk_rust.Json.{string, bool}
use tricoredb_sdk_rust.Json.Maps.{entry}
use tricoredb_sdk_rust.Response.{decode}
use tricoredb_sdk_rust.Client.Sending.Requests.Outcomes.{
  Opens, Closes, send_begin-Opens, send_ending-Closes,
}
use tricoredb_sdk_rust.Document
use tricoredb_sdk_rust.Document.{document_op}
use tricoredb_sdk_rust.Document.Codec.{DocumentCodec}
use tricoredb_sdk_rust.Document.Transactions.{
  document_begin_transaction, document_commit_transaction, document_rollback_transaction,
}
use tricoredb_sdk_rust.Graph.{graph_op, text_entry}
use tricoredb_sdk_rust.Graph.Codec.{GraphCodec}
use tricoredb_sdk_rust.Graph.Transactions.{
  graph_begin_transaction, graph_commit_transaction, graph_rollback_transaction,
}

module _ {W A S T : Type 0} (env : Environment W A S T) (documents : DocumentCodec)
    (graphs : GraphCodec) where
  -- A transaction is opened by one request outside any other, and its id is never empty. A commit
  -- and a rollback are one request inside the transaction, and the client names that transaction no
  -- longer afterwards, whether they succeed, are refused or cannot be read.
  pub transactions_outcome :
      (graph txn : Text) (serializable : Bool)
      → Opens env
          (document_op
            (codes "BeginTransaction")
            (entry (codes "serializable") (bool serializable) ∷ []))
          (λ r. decode documents.transaction r (codes "BeginTransaction"))
          (document_begin_transaction env documents serializable)
        × Closes env
            (Document.op (string (codes "CommitTransaction")))
            txn
            (λ r. decode documents.commit r (codes "CommitTransaction"))
            (document_commit_transaction env documents txn)
        × Closes env
            (Document.op (string (codes "RollbackTransaction")))
            txn
            (λ r. ok tt)
            (document_rollback_transaction env documents txn)
        × Opens env
            (graph_op (codes "BeginTransaction") (text_entry (codes "graph") graph ∷ []))
            (λ r. decode graphs.transaction r (codes "BeginTransaction"))
            (graph_begin_transaction env graphs graph)
        × Closes env
            (graph_op (codes "CommitTransaction") (text_entry (codes "graph") graph ∷ []))
            txn
            (λ r. decode graphs.summary r (codes "CommitTransaction"))
            (graph_commit_transaction env graphs graph txn)
        × Closes env
            (graph_op (codes "RollbackTransaction") (text_entry (codes "graph") graph ∷ []))
            txn
            (λ r. decode graphs.rolled_back r (codes "RollbackTransaction"))
            (graph_rollback_transaction env graphs graph txn)
  unfolding document_begin_transaction document_commit_transaction document_rollback_transaction
      graph_begin_transaction graph_commit_transaction graph_rollback_transaction
  transactions_outcome graph txn serializable = (
    send_begin-Opens env _ _,
    send_ending-Closes env _ txn _,
    send_ending-Closes env _ txn _,
    send_begin-Opens env _ _,
    send_ending-Closes env _ txn _,
    send_ending-Closes env _ txn _,
  )
