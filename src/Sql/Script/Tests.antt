-- ===== src/Sql/Script/Tests.antt =====
-- Transaction scripts of concrete statements.
use tricoredb_sdk_rust.Common.{◌≡◌, ◌≢◌, ◌↔◌, List, [], ◌∷◌, ◌++◌, codes, All}
use tricoredb_sdk_rust.Failure.{ok}
use tricoredb_sdk_rust.Params.{Param}
use tricoredb_sdk_rust.Sql.Script.{Statement, join, build_transaction_script}
use tricoredb_sdk_rust.Sql.Script.Brackets.{
  IsPlain, texts, all_params, build_transaction_script_iff,
}

abbrev two_statements : List Statement
two_statements =
    record { sql = codes " INSERT INTO t VALUES (?); "; params = Param.uint 1 ∷ [] }
    ∷ record { sql = codes "DELETE FROM u"; params = [] }
    ∷ []

build_transaction_script_iff_example :
    (build_transaction_script two_statements
      ≡ ok (codes "BEGIN; INSERT INTO t VALUES (?); DELETE FROM u; COMMIT", Param.uint 1 ∷ []))
    ↔ ((two_statements ≢ [])
        × All IsPlain two_statements
        × (codes "BEGIN; INSERT INTO t VALUES (?); DELETE FROM u; COMMIT"
            ≡ codes "BEGIN; " ++ (join (texts two_statements) ++ codes "; COMMIT"))
        × (Param.uint 1 ∷ [] ≡ all_params two_statements))
build_transaction_script_iff_example =
    build_transaction_script_iff two_statements
      (codes "BEGIN; INSERT INTO t VALUES (?); DELETE FROM u; COMMIT") (Param.uint 1 ∷ [])
