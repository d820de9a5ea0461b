-- ===== src/Params/Tests.antt =====
-- Decimals at concrete texts.
use tricoredb_sdk_rust.Common.{◌≡◌, ◌↔◌, codes}
use tricoredb_sdk_rust.Failure.{ok}
use tricoredb_sdk_rust.Params.{validate_decimal}
use tricoredb_sdk_rust.Params.Decimal.{Decimal, validate_decimal_iff}

validate_decimal_iff_example :
    (validate_decimal (codes "-12.50") ≡ ok tt) ↔ Decimal (codes "-12.50")
validate_decimal_iff_example = validate_decimal_iff (codes "-12.50")
