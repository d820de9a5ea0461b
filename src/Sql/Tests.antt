-- ===== src/Sql/Tests.antt =====
-- Transactions with a scripted server.
use tricoredb_sdk_rust.Act.{raise}
use tricoredb_sdk_rust.Common.{
  ℕ, zero, suc, ◌≡◌, ◌||◌, refl, List, [], ◌∷◌, Bool, true, false, Option, none, some, Text, codes,
  text_eq, get_elem?, is_some, if◌then◌else◌,
}
use tricoredb_sdk_rust.Common.Int.{ℤ}
use tricoredb_sdk_rust.Environment.Scripted.{scripted}
use tricoredb_sdk_rust.Failure.{Error, ok, err, invalid, feature_refusal}
use tricoredb_sdk_rust.Json.{Value, Number}
use tricoredb_sdk_rust.Response.{Response, Parsed, parsed, malformed, decode}
use tricoredb_sdk_rust.Client.{Client, Session, Call, in_transaction, session_txn_granted}
use tricoredb_sdk_rust.Client.Sending.Tests.{send_answered}
use tricoredb_sdk_rust.Client.Fixtures.{session_with, response_frame}
use tricoredb_sdk_rust.Sql.{
  get, SqlCodec, TransactionResult, Rows, execute, transaction_control, begin, commit, rollback,
  with_transaction, no_session_txn,
}
use tricoredb_sdk_rust.Sql.Table.{Distinct, maps, map_value, get-maps}
use tricoredb_sdk_rust.Sql.Transactions.{with_transaction_outcome, with_transaction-nested}

-- A reply to a control keyword: zero closes the transaction, and a number above it is the depth that
-- is left.
abbrev pub result_at : Option ℤ → TransactionResult
result_at depth = record {
  statements = ℤ.pos 0;
  committed_writes = ℤ.pos 0;
  discarded_writes = ℤ.pos 0;
  outcome = codes "done";
  nested_depth = depth;
}

abbrev scripted_result : Value → Parsed TransactionResult
scripted_result (Value.number (Number.pos_int zero)) = parsed (result_at none)
scripted_result (Value.number (Number.pos_int (suc n))) = parsed (result_at (some (ℤ.pos (suc n))))
scripted_result v = malformed (codes "no result")

abbrev pub codec : SqlCodec
codec = record {
  params_value = λ ps. Value.null;
  rows_value = λ v. parsed (record { columns = []; rows = [] });
  result_value = scripted_result;
  show_float = λ f. [];
}

abbrev pub idle : List ℕ → Session (List ℕ) (Unit {0}) (Unit {0})
idle bytes = session_with false none bytes

-- A closure that only fails, on a server that answers the BEGIN and the ROLLBACK.
abbrev give_up : Call scripted ℕ
give_up = raise (invalid (codes "no"))

abbrev pub nested_script : List ℕ
nested_script = response_frame 0 (response_frame 1 [])

with_transaction_outcome_example :
    let s = idle nested_script in
    ((e : Error)
      → (begin scripted codec s).0 ≡ err e
      → with_transaction scripted codec give_up s ≡ (err e, (begin scripted codec s).1))
    × (session_txn_granted s.client ≡ false
        → with_transaction scripted codec give_up s ≡ (err (feature_refusal no_session_txn), s))
    × ((r : TransactionResult)
        → (begin scripted codec s).0 ≡ ok r
        → let s' = (give_up (begin scripted codec s).1).1 in
          ((e : Error)
            → (give_up (begin scripted codec s).1).0 ≡ err e
            → with_transaction scripted codec give_up s
              ≡ (err e, if in_transaction s'.client then (rollback scripted codec s').1 else s'))
          × ((b : ℕ) (e : Error)
              → (give_up (begin scripted codec s).1).0 ≡ ok b
              → (commit scripted codec s').0 ≡ err e
              → with_transaction scripted codec give_up s ≡ (err e, (commit scripted codec s').1))
          × ((b : ℕ) (c : TransactionResult)
              → (give_up (begin scripted codec s).1).0 ≡ ok b
              → (commit scripted codec s').0 ≡ ok c
              → with_transaction scripted codec give_up s ≡ (ok b, (commit scripted codec s').1)))
with_transaction_outcome_example =
    with_transaction_outcome scripted codec give_up (idle nested_script)

begun : (begin scripted codec (idle nested_script)).0 ≡ ok (result_at none)
unfolding begin session_txn_granted tricoredb_sdk_rust.Options.has_feature transaction_control
    execute tricoredb_sdk_rust.Sql.execute_params tricoredb_sdk_rust.Sql.sql_body
    tricoredb_sdk_rust.Sql.control_reply tricoredb_sdk_rust.Sql.control_read
    tricoredb_sdk_rust.Response.decode tricoredb_sdk_rust.Response.expect
    tricoredb_sdk_rust.Common.codes tricoredb_sdk_rust.Common.text_eq
    tricoredb_sdk_rust.Client.set_txn_open
begun = rw (send_answered _) refl

with_transaction-nested_example :
    let s = idle nested_script in
    let s' = (give_up (begin scripted codec s).1).1 in
    ((e : Error)
      → (give_up (begin scripted codec s).1).0 ≡ err e
      → in_transaction s'.client ≡ true
      → (rollback scripted codec s').0 ≡ ok (result_at (some (ℤ.pos 1)))
      → (with_transaction scripted codec give_up s).1.client.txn_open ≡ true)
    × ((b : ℕ)
        → (give_up (begin scripted codec s).1).0 ≡ ok b
        → (commit scripted codec s').0 ≡ ok (result_at (some (ℤ.pos 1)))
        → (with_transaction scripted codec give_up s).1.client.txn_open ≡ true)
with_transaction-nested_example =
    with_transaction-nested scripted codec give_up (idle nested_script) (result_at none)
      (result_at (some (ℤ.pos 1))) (ℤ.pos 1) begun refl

abbrev people : Rows
people = record {
  columns = codes "id" ∷ codes "name" ∷ [];
  rows = (codes "1" ∷ codes "ada" ∷ []) ∷ (codes "2" ∷ []) ∷ [];
}

people-Distinct : Distinct people.columns
unfolding text_eq codes
people-Distinct = ((refl, tt), (tt, tt))

get-maps_example :
    get people 0 (codes "name") ≡ map_value (codes "name") (get_elem? (maps people) 0)
get-maps_example = get-maps people 0 (codes "name") people-Distinct
