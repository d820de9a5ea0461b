-- ===== src/Address/Tests.antt =====
-- An address with colons in its host.
use tricoredb_sdk_rust.Common.{◌≡◌, refl, some, Text, codes, arith}
use tricoredb_sdk_rust.Address.{split_address, join_address}
use tricoredb_sdk_rust.Address.RoundTrip.{IsHost, split_address-join_address}

abbrev loopback : Text
loopback = codes "::1"

loopback-IsHost : IsHost loopback
unfolding codes
loopback-IsHost = record { named = refl; unopened = refl; unclosed = refl }

split_address-join_address_example :
    split_address (join_address loopback 8427) ≡ some (loopback, 8427)
split_address-join_address_example =
    split_address-join_address loopback 8427 loopback-IsHost (omega arith) (omega arith)
