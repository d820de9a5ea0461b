-- ===== src/Graph/Transactions.antt =====
-- graph.rs: Cypher, and explicit transactions.
use tricoredb_sdk_rust.Act.{lift, ◌>>=◌}
use tricoredb_sdk_rust.Common.{[], ◌∷◌, Text, codes}
use tricoredb_sdk_rust.Common.Int.{ℤ}
use tricoredb_sdk_rust.Environment.{Environment}
use tricoredb_sdk_rust.Response.{decode}
use tricoredb_sdk_rust.Client.{Call}
use tricoredb_sdk_rust.Client.Sending.Requests.{send_decode, send_begin, send_ending}
use tricoredb_sdk_rust.Graph.Elements.{GraphRows, GraphWriteSummary}
use tricoredb_sdk_rust.Graph.Codec.{GraphCodec}
use tricoredb_sdk_rust.Graph.{graph_op, text_entry}

module _ {W A S T : Type 0} (env : Environment W A S T) (codec : GraphCodec) where
  graph_query : Text → Text → Call env GraphRows
  graph_query graph cypher =
      send_decode env codec.rows
        (graph_op (codes "Query")
          (text_entry (codes "graph") graph ∷ text_entry (codes "cypher") cypher ∷ []))
        (codes "Query")

  graph_execute : Text → Text → Call env GraphWriteSummary
  graph_execute graph cypher =
      send_decode env codec.summary
        (graph_op (codes "Execute")
          (text_entry (codes "graph") graph ∷ text_entry (codes "cypher") cypher ∷ []))
        (codes "Execute")

  unfoldable pub graph_begin_transaction : Text → Call env Text
  graph_begin_transaction graph =
      send_begin env codec.transaction
        (graph_op (codes "BeginTransaction") (text_entry (codes "graph") graph ∷ []))

  unfoldable pub graph_commit_transaction : Text → Text → Call env GraphWriteSummary
  graph_commit_transaction graph txn = do
    r ←
        send_ending env
          (graph_op (codes "CommitTransaction") (text_entry (codes "graph") graph ∷ [])) txn
    lift (decode codec.summary r (codes "CommitTransaction"))

  unfoldable pub graph_rollback_transaction : Text → Text → Call env ℤ
  graph_rollback_transaction graph txn = do
    r ←
        send_ending env
          (graph_op (codes "RollbackTransaction") (text_entry (codes "graph") graph ∷ [])) txn
    lift (decode codec.rolled_back r (codes "RollbackTransaction"))
