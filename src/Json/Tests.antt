-- ===== src/Json/Tests.antt =====
-- Filled bodies at concrete inputs.
use tricoredb_sdk_rust.Common.{◌≡◌, List, [], ◌∷◌, Option, none, some, Text, codes}
use tricoredb_sdk_rust.Json.{num, null}
use tricoredb_sdk_rust.Json.Maps.{Entry, entry, last_set}

abbrev twice_set : List Entry
twice_set =
    entry (codes "limit") (num 1)
    ∷ (codes "label", none)
    ∷ entry (codes "depth") null
    ∷ entry (codes "limit") (num 2)
    ∷ []

-- The value set last is the one that stays.
last_limit : last_set (codes "limit") twice_set none ≡ some (num 2)
unfolding last_set codes tricoredb_sdk_rust.Common.text_eq
last_limit = tricoredb_sdk_rust.Common.refl
