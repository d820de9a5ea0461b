-- ===== src/Failure/Display.antt =====
-- error.rs: how an error is printed. A kind prints as its name.
use tricoredb_sdk_rust.Common.{Option, none, some, Text, [], ◌++◌, codes}
use tricoredb_sdk_rust.Failure.{Error, ErrorKind}

-- The derived `Debug` of `ErrorKind`.
kind_name : ErrorKind → Text
kind_name ErrorKind.io = codes "Io"
kind_name ErrorKind.timeout = codes "Timeout"
kind_name ErrorKind.protocol = codes "Protocol"
kind_name ErrorKind.auth = codes "Auth"
kind_name ErrorKind.handshake = codes "Handshake"
kind_name ErrorKind.server = codes "Server"
kind_name ErrorKind.refused = codes "Refused"
kind_name ErrorKind.feature_not_granted = codes "FeatureNotGranted"
kind_name ErrorKind.invalid_argument = codes "InvalidArgument"
kind_name ErrorKind.tls = codes "Tls"
kind_name ErrorKind.closed = codes "Closed"
kind_name ErrorKind.pool = codes "Pool"
kind_name ErrorKind.transaction_left_open = codes "TransactionLeftOpen"

code_part : Option Text → Text
code_part none = []
code_part (some code) = codes " [" ++ (code ++ codes "]")

hint_part : Option Text → Text
hint_part none = []
hint_part (some hint) = codes " (leader at " ++ (hint ++ codes ")")

-- `Display for Error`.
display : Error → Text
unfolding kind_name code_part hint_part
display e =
    kind_name e.kind ++ (code_part e.code ++ (codes ": " ++ (e.message ++ hint_part e.leader_hint)))
