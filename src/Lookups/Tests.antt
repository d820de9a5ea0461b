-- ===== src/Lookups/Tests.antt =====
-- Lookups at concrete inputs.
use tricoredb_sdk_rust.Common.{Text, codes}

abbrev social : Text
social = codes "social"

abbrev ada : Text
ada = codes "ada"
