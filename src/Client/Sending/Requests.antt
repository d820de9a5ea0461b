-- ===== src/Client/Sending/Requests.antt =====
-- What the typed operations of document.rs, graph.rs, vector.rs and llm.rs do around one request: read
-- its reply, forget it, or end an explicit transaction with it.
pub mod Outcomes
use tricoredb_sdk_rust.Act.{Act, lift, pure, ◌>>=◌}
use tricoredb_sdk_rust.Common.{
  Bool, true, false, [], ◌++◌, Option, none, some, Text, codes, is_empty, if◌then◌else◌,
}
use tricoredb_sdk_rust.Environment.{Environment}
use tricoredb_sdk_rust.Failure.{Error, Result, ok, err, protocol_error}
use tricoredb_sdk_rust.Json.{Value}
use tricoredb_sdk_rust.Response.{Response, Parsed, expect, decode}
use tricoredb_sdk_rust.Client.{Client, Session, Call, forget_txn}
use tricoredb_sdk_rust.Client.Sending.{send, send_in}

-- A payload of null is no value.
unfoldable pub null_or : {B : Type 0} → Result B → Result Value → Result (Option B)
null_or _ (err e) = err e
null_or _ (ok Value.null) = ok none
null_or (ok b) (ok _) = ok (some b)
null_or (err e) (ok _) = err e

-- An answer without an id names no transaction.
pub named : Result Text → Result Text
named (err e) = err e
named (ok id) =
    if is_empty id
    then err (protocol_error (codes "BeginTransaction answered with no transaction id"))
    else ok id

-- `forget_txn`, as a step.
pub forgotten : {W S T : Type 0} → Text → Session W S T → Session W S T
forgotten txn s = record s { client = forget_txn txn s.client }

module _ {W A S T : Type 0} (env : Environment W A S T) where
  -- `send(…)?.decode(what)`.
  pub send_decode : {B : Type 0} → (Value → Parsed B) → Value → Text → Call env B
  send_decode read request what = do r ← send env request; lift (decode read r what)

  -- `send(…).map(|_| ())`.
  pub send_unit : Value → Call env (Unit {0})
  send_unit request = do _ ← send env request; pure tt

  -- A reply of null is `None`.
  pub send_nullable : {B : Type 0} → (Value → Parsed B) → Value → Text → Call env (Option B)
  unfolding null_or
  send_nullable read request what = do
    r ← send env request
    lift (null_or (decode read r what) (expect r (codes "Json") what))

  -- The opening of an explicit transaction goes outside any other.
  pub send_begin : (Value → Parsed Text) → Value → Call env Text
  unfolding named
  send_begin read request = do
    r ← send_in env request none
    lift (named (decode read r (codes "BeginTransaction")))

  -- A request that ends a transaction: the client forgets the id whatever the outcome.
  pub send_ending : Value → Text → Call env Response
  unfolding forgotten
  send_ending request txn s =
      let (r, s') = send_in env request (some txn) s in (r, forgotten txn s')
