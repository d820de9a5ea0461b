-- ===== src/Explicit/Tests.antt =====
-- Explicit transactions at concrete inputs.
use tricoredb_sdk_rust.Common.{[], ◌∷◌, Text, codes, true}
use tricoredb_sdk_rust.Environment.Scripted.{scripted}
use tricoredb_sdk_rust.Failure.{ok}
use tricoredb_sdk_rust.Fixtures.{document_codec, graph_codec}
use tricoredb_sdk_rust.Json.{string, bool}
use tricoredb_sdk_rust.Json.Maps.{entry}
use tricoredb_sdk_rust.Response.{decode}
use tricoredb_sdk_rust.Client.Sending.Requests.Outcomes.{Opens, Closes}
use tricoredb_sdk_rust.Document
use tricoredb_sdk_rust.Document.{document_op}
use tricoredb_sdk_rust.Document.Transactions.{
  document_begin_transaction, document_commit_transaction, document_rollback_transaction,
}
use tricoredb_sdk_rust.Explicit.{transactions_outcome}
use tricoredb_sdk_rust.Graph.{graph_op, text_entry}
use tricoredb_sdk_rust.Graph.Transactions.{
  graph_begin_transaction, graph_commit_transaction, graph_rollback_transaction,
}

abbrev social : Text
social = codes "social"

abbrev t1 : Text
t1 = codes "t1"

transactions_outcome_example :
    Opens scripted
      (document_op (codes "BeginTransaction") (entry (codes "serializable") (bool true) ∷ []))
      (λ r. decode document_codec.transaction r (codes "BeginTransaction"))
      (document_begin_transaction scripted document_codec true)
    × Closes scripted
        (Document.op (string (codes "CommitTransaction")))
        t1
        (λ r. decode document_codec.commit r (codes "CommitTransaction"))
        (document_commit_transaction scripted document_codec t1)
    × Closes scripted
        (Document.op (string (codes "RollbackTransaction")))
        t1
        (λ r. ok tt)
        (document_rollback_transaction scripted document_codec t1)
    × Opens scripted
        (graph_op (codes "BeginTransaction") (text_entry (codes "graph") social ∷ []))
        (λ r. decode graph_codec.transaction r (codes "BeginTransaction"))
        (graph_begin_transaction scripted graph_codec social)
    × Closes scripted
        (graph_op (codes "CommitTransaction") (text_entry (codes "graph") social ∷ []))
        t1
        (λ r. decode graph_codec.summary r (codes "CommitTransaction"))
        (graph_commit_transaction scripted graph_codec social t1)
    × Closes scripted
        (graph_op (codes "RollbackTransaction") (text_entry (codes "graph") social ∷ []))
        t1
        (λ r. decode graph_codec.rolled_back r (codes "RollbackTransaction"))
        (graph_rollback_transaction scripted graph_codec social t1)
transactions_outcome_example =
    transactions_outcome scripted document_codec graph_codec social t1 true
