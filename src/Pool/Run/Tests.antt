-- ===== src/Pool/Run/Tests.antt =====
-- A connection around a closure that returns at once.
use tricoredb_sdk_rust.Common.{ℕ, ◌≡◌, refl, true, false, List, [], none}
use tricoredb_sdk_rust.Act.{pure}
use tricoredb_sdk_rust.Environment.Scripted.{scripted}
use tricoredb_sdk_rust.Failure.{Error, ok, err}
use tricoredb_sdk_rust.Client.{Session, Call, in_transaction, is_poisoned}
use tricoredb_sdk_rust.Client.Fixtures.{session_with}
use tricoredb_sdk_rust.Sql.Tests.{codec}
use tricoredb_sdk_rust.Pool.Run.{
  run, settle, is_fatal, IsReusable, run-IsReusable, run_outcome, left_open_error,
}

abbrev fresh : Session (List ℕ) (Unit {0}) (Unit {0})
fresh = session_with false none []

abbrev answer : Call scripted ℕ
answer = pure 5

run-IsReusable_example : IsReusable scripted codec (run scripted codec answer fresh).session.client
unfolding run settle is_fatal is_poisoned in_transaction
run-IsReusable_example = run-IsReusable scripted codec answer fresh refl

run_outcome_example :
    ((e : Error) → (answer fresh).0 ≡ err e → (run scripted codec answer fresh).result ≡ err e)
    × ((b : ℕ)
        → (answer fresh).0 ≡ ok b
        → (is_poisoned (answer fresh).1.client ≡ false
            → in_transaction (answer fresh).1.client ≡ true
            → (run scripted codec answer fresh).result ≡ err left_open_error)
          × (in_transaction (answer fresh).1.client ≡ false
              → ((run scripted codec answer fresh).result ≡ ok b)
                × ((run scripted codec answer fresh).session ≡ (answer fresh).1)))
run_outcome_example = run_outcome scripted codec answer fresh
