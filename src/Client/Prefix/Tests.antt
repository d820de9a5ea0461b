-- ===== src/Client/Prefix/Tests.antt =====
-- Prefixes at concrete readings of the clock, of which the second goes back.
use tricoredb_sdk_rust.Common.{◌+◌, ◌^◌, [], ◌∷◌, some, arith}
use tricoredb_sdk_rust.Client.Prefix.{prefixes}
use tricoredb_sdk_rust.Client.Prefix.Unique.{Unlike, prefixes-Unlike}

prefixes-Unlike_example :
    Unlike (prefixes 4711 15 (some (2 ^ 60 + 1) ∷ some (2 ^ 60) ∷ some (2 ^ 60) ∷ []))
prefixes-Unlike_example =
    prefixes-Unlike 4711 15 (some (2 ^ 60 + 1) ∷ some (2 ^ 60) ∷ some (2 ^ 60) ∷ [])
      ((omega arith, omega arith), ((omega arith, omega arith), ((omega arith, omega arith), tt)))
      (omega arith)
