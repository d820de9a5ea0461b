-- ===== src/Sql.antt =====
-- sql.rs: statements with bound parameters, and transactions that stay open across requests.
pub mod Table
pub mod Script
pub mod Transactions
pub mod Depth
pub mod Whole
pub mod Tests
use tricoredb_sdk_rust.Act.{Act, lift, raise, pure, continue, ◌>>=◌, ◌>>◌}
use tricoredb_sdk_rust.Common.{
  ℕ, zero, suc, ◌+◌, Bool, true, false, not, ◌&&◌, ◌||◌, List, [], ◌∷◌, ◌++◌, Option, none, some,
  Text, codes, text_eq, is_some, is_empty, get_elem?, if◌then◌else◌, ◌==◌,
}
use tricoredb_sdk_rust.Common.Int.{ℤ}
use tricoredb_sdk_rust.Environment.{Environment}
use tricoredb_sdk_rust.Failure.{
  Error, ErrorKind, Result, ok, err, feature_refusal, protocol_error, was_refused_locally,
}
use tricoredb_sdk_rust.Json.{Value, Fields, field, end, obj, string, tagged}
use tricoredb_sdk_rust.Params.{Param, validate}
use tricoredb_sdk_rust.Response.{Response, Parsed, parsed_or, expect, decode}
use tricoredb_sdk_rust.Client.{
  Client, Session, Call, server_params_granted, session_txn_granted, in_transaction, set_txn_open,
}
use tricoredb_sdk_rust.Client.Sending.{send}

pub record Rows : Type 0 where
  pub columns : List Text
  pub rows : List (List Text)

one_more : Option ℕ → Option ℕ
one_more none = none
one_more (some i) = some (suc i)

-- `iter().position(…)`.
position : Text → List Text → Option ℕ
unfolding one_more
position name [] = none
position name (c ∷ cs) = if text_eq c name then some 0 else one_more (position name cs)

cell : Option (List Text) → Option ℕ → Option Text
cell (some r) (some i) = get_elem? r i
cell _ _ = none

-- One row's value for a column, by name.
pub get : Rows → ℕ → Text → Option Text
unfolding position cell
get t row column = cell (get_elem? t.rows row) (position column t.columns)

pub record TransactionResult : Type 0 where
  pub statements : ℤ
  pub committed_writes : ℤ
  pub discarded_writes : ℤ
  pub outcome : Text
  pub nested_depth : Option ℤ

-- serde_json, as far as this part uses it: what a list of parameters is written as, and what a reply
-- is read into.
pub record SqlCodec : Type 0 where
  pub params_value : List Param → Value
  pub rows_value : Value → Parsed Rows
  pub result_value : Value → Parsed TransactionResult
  pub show_float : ℕ → Text

no_server_params : Text
no_server_params =
    codes
      "this server did not grant server-side parameters (SERVER_PARAMS was not in the granted feature set), so this client will not bind `?` placeholders on this connection. It will not render the values into the statement text instead: escaping and binding are not the same guarantee. Upgrade the server, or build the statement yourself"

pub no_session_txn : Text
no_session_txn =
    codes
      "this server did not grant session transactions (SESSION_TXN was not in the granted feature set), so begin/commit/rollback cannot open a transaction on this connection. Use transaction(...) to send the whole unit as one request"

module _ {W A S T : Type 0} (env : Environment W A S T) (codec : SqlCodec) where
  -- The loop over the parameters, from the one at `index` on.
  validate_all : ℕ → List Param → Result (Unit {0})
  validate_all index [] = ok tt
  validate_all index (p ∷ ps) =
      let rest = validate_all (index + 1) ps in
      elim (validate codec.show_float p index) [ ok _ ↦ rest | err e ↦ err e ]

  bound_body : Text → List Param → Result (Unit {0}) → Result Value
  bound_body sql params (err e) = err e
  bound_body sql params (ok _) = ok (
      obj
        (field (codes "params") (codec.params_value params) (field (codes "sql") (string sql) end)))

  pub sql_body : Client S T → Text → List Param → Result Value
  unfolding bound_body validate_all
  sql_body c sql params =
      if is_empty params
      then ok (obj (field (codes "sql") (string sql) end))
      else if not (server_params_granted c)
      then err (feature_refusal no_server_params)
      else bound_body sql params (validate_all 0 params)

  -- `json!({"Sql": {op: body}})`
  abbrev sql_op : Text → Value → Value
  sql_op op body = tagged (codes "Sql") (tagged op body)

  pub execute_params : Text → List Param → Call env Response
  execute_params sql params = do
    body ← λ s. (sql_body s.client sql params, s)
    send env (sql_op (codes "Exec") body)

  pub execute : Text → Call env Response
  unfolding execute_params
  execute sql = execute_params sql []

  read_rows : Result Value → Result Rows
  read_rows (ok v) = parsed_or (codec.rows_value v) (codes "malformed Rows payload: ")
  read_rows (err e) = err e

  rows_of : Response → Text → Result Rows
  unfolding read_rows
  rows_of r what = read_rows (expect r (codes "Rows") what)

  pub query_params : Text → List Param → Call env Rows
  unfolding rows_of
  query_params sql params = do
    body ← λ s. (sql_body s.client sql params, s)
    r ← send env (sql_op (codes "Query") body)
    lift (rows_of r (codes "query"))

  pub query : Text → Call env Rows
  unfolding query_params
  query sql = query_params sql []

  abbrev is_begin : Text → Bool
  is_begin keyword = text_eq keyword (codes "BEGIN")

  -- A reply that could be read says whether the transaction is open.
  control_read : Text → Result TransactionResult → Call env TransactionResult
  control_read keyword (err e) = raise e
  control_read keyword (ok r) = do
    set_txn_open env (is_begin keyword || is_some r.nested_depth)
    pure r

  control_reply : Text → Result Response → Call env TransactionResult
  unfolding control_read
  control_reply keyword (ok response) =
      control_read keyword (decode codec.result_value response keyword)
  control_reply keyword (err e) = do
    λ s.
        if not (is_begin keyword) && not (was_refused_locally e)
        then set_txn_open env false s
        else pure tt s
    raise e

  -- Send one transaction-control keyword.
  pub transaction_control : Text → Call env TransactionResult
  unfolding control_reply
  transaction_control keyword s = let (r, s') = execute keyword s in control_reply keyword r s'

  pub begin : Call env TransactionResult
  begin s =
      if not (session_txn_granted s.client)
      then (err (feature_refusal no_session_txn), s)
      else transaction_control (codes "BEGIN") s

  pub commit : Call env TransactionResult
  commit = transaction_control (codes "COMMIT")

  pub rollback : Call env TransactionResult
  rollback = transaction_control (codes "ROLLBACK")

  -- A failed closure's transaction is rolled back as far as one `ROLLBACK` goes.
  undo : Session W S T → Session W S T
  undo s = if in_transaction s.client then (rollback s).1 else s

  finish : {B : Type 0} → Result B → Call env B
  unfolding undo
  finish (ok b) s = (do _ ← commit; pure b) s
  finish (err e) s = (err e, undo s)

  pub with_transaction : {B : Type 0} → Call env B → Call env B
  unfolding finish
  with_transaction work = do _ ← begin; λ s. let (r, s') = work s in finish r s'
