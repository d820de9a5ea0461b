-- ===== src/Frame.antt =====
-- frame.rs: `version: u8 | tag: u8 | payload_len: u32 (big-endian) | payload`.
pub mod Tags
pub mod Faults
pub mod Reading
mod Tests
use tricoredb_sdk_rust.Common.{
  ℕ, zero, suc, ◌+◌, ◌*◌, ◌/◌, ◌%◌, ◌^◌, Bool, true, false, List, [], ◌∷◌, ◌++◌, Option, none, some,
  Text, codes, show_nat, ltb, length, ◌==◌, get_elem?, unwrap_or, if◌then◌else◌,
}
use tricoredb_sdk_rust.Failure.{Error, ErrorKind, Result, ok, err, ok_or, new_error, IoResult}
use tricoredb_sdk_rust.Act.{Act, pure, lift, call, ◌>>=◌, ◌>>◌}

abbrev pub frame_version : ℕ
frame_version = 1

abbrev pub header_len : ℕ
header_len = 6

abbrev pub max_data_payload : ℕ
max_data_payload = 16 * 1024 * 1024

abbrev pub max_control_payload : ℕ
max_control_payload = 64 * 1024

pub data Tag : Type 0 where
  hello auth request response ping pong error close hello_ok auth_ok bye cancel cancel_ok : Tag

unfoldable pub as_u8 : Tag → ℕ
as_u8 hello = 0
as_u8 auth = 1
as_u8 request = 2
as_u8 response = 3
as_u8 ping = 4
as_u8 pong = 5
as_u8 error = 6
as_u8 close = 7
as_u8 hello_ok = 8
as_u8 auth_ok = 9
as_u8 bye = 10
as_u8 cancel = 11
as_u8 cancel_ok = 12

unfoldable pub from_u8 : ℕ → Option Tag
from_u8 b =
    if b == 0
    then some hello
    else if b == 1
    then some auth
    else if b == 2
    then some request
    else if b == 3
    then some response
    else if b == 4
    then some ping
    else if b == 5
    then some pong
    else if b == 6
    then some error
    else if b == 7
    then some close
    else if b == 8
    then some hello_ok
    else if b == 9
    then some auth_ok
    else if b == 10
    then some bye
    else if b == 11
    then some cancel
    else if b == 12
    then some cancel_ok
    else none

unfoldable pub max_payload : Tag → ℕ
max_payload request = max_data_payload
max_payload response = max_data_payload
max_payload _ = max_control_payload

-- `{:?}` of a tag.
pub tag_name : Tag → Text
tag_name hello = codes "Hello"
tag_name auth = codes "Auth"
tag_name request = codes "Request"
tag_name response = codes "Response"
tag_name ping = codes "Ping"
tag_name pong = codes "Pong"
tag_name error = codes "Error"
tag_name close = codes "Close"
tag_name hello_ok = codes "HelloOk"
tag_name auth_ok = codes "AuthOk"
tag_name bye = codes "Bye"
tag_name cancel = codes "Cancel"
tag_name cancel_ok = codes "CancelOk"

pub record Frame : Type 0 where
  pub tag : Tag
  pub payload : List ℕ

-- `u32::to_be_bytes` of `n as u32`.
unfoldable pub to_be_bytes : ℕ → List ℕ
to_be_bytes n =
    (n % 2 ^ 32 / 2 ^ 24)
    ∷ (n % 2 ^ 32 / 2 ^ 16 % 256)
    ∷ (n % 2 ^ 32 / 2 ^ 8 % 256)
    ∷ (n % 2 ^ 32 % 256)
    ∷ []

-- `u32::from_be_bytes`.
unfoldable pub from_be_bytes : ℕ → ℕ → ℕ → ℕ → ℕ
from_be_bytes a b c d = a * 2 ^ 24 + b * 2 ^ 16 + c * 2 ^ 8 + d

pub too_large_to_send : Tag → ℕ → Error
too_large_to_send t n = new_error ErrorKind.protocol (
    codes "refusing to send a "
    ++ (show_nat n
        ++ (codes "-byte "
            ++ (tag_name t
                ++ (codes " frame: the protocol caps it at "
                    ++ (show_nat (max_payload t) ++ codes " bytes"))))))

unfoldable pub encode : Tag → List ℕ → Result (List ℕ)
encode t payload =
    if ltb (max_payload t) (length payload)
    then err (too_large_to_send t (length payload))
    else ok (frame_version ∷ as_u8 t ∷ (to_be_bytes (length payload) ++ payload))

-- `Write` is a parameter: `write_all` and `flush`, as actions on the writer.
unfoldable pub write_frame :
    {W : Type 0} (write_all : List ℕ → W → IoResult (Unit {0}) × W)
    (flush : W → IoResult (Unit {0}) × W)
    → Tag
    → List ℕ
    → Act W (Unit {0})
unfolding encode
write_frame write_all flush t payload = do
  bytes ← lift (encode t payload)
  call (write_all bytes)
  call flush

pub version_error : ℕ → Error
version_error v = new_error ErrorKind.protocol (
    codes "frame header version "
    ++ (show_nat v
        ++ (codes " is newer than this client can read (max "
            ++ (show_nat frame_version ++ codes ")"))))

pub tag_error : ℕ → Error
tag_error b = new_error ErrorKind.protocol (codes "unknown frame tag " ++ show_nat b)

pub declared_error : Tag → ℕ → Error
declared_error t n = new_error ErrorKind.protocol (
    tag_name t
    ++ (codes " frame declares a "
        ++ (show_nat n
            ++ (codes "-byte payload, above its "
                ++ (show_nat (max_payload t) ++ codes "-byte limit")))))

-- `head[i]` of the header buffer.
abbrev byte_at : List ℕ → ℕ → ℕ
byte_at head i = unwrap_or (get_elem? head i) 0

abbrev declared_len : List ℕ → ℕ
declared_len head =
    from_be_bytes (byte_at head 2) (byte_at head 3) (byte_at head 4) (byte_at head 5)

within_limit : Tag → ℕ → Result (Tag × ℕ)
within_limit t len = if ltb (max_payload t) len then err (declared_error t len) else ok (t, len)

tagged_header : Option Tag → List ℕ → Result (Tag × ℕ)
unfolding within_limit
tagged_header none head = err (tag_error (byte_at head 1))
tagged_header (some t) head = within_limit t (declared_len head)

-- The checks of `read_frame` between its two reads.
parse_header : List ℕ → Result (Tag × ℕ)
unfolding tagged_header
parse_header head =
    if ltb frame_version (byte_at head 0)
    then err (version_error (byte_at head 0))
    else tagged_header (from_u8 (byte_at head 1)) head

-- `Read` is a parameter: `read_exact`, given how many bytes to read.
unfoldable pub read_frame : {R : Type 0} (read_exact : ℕ → R → IoResult (List ℕ) × R) → Act R Frame
unfolding parse_header from_u8 max_payload from_be_bytes
read_frame read_exact = do
  head ← call (read_exact header_len)
  header ← lift (parse_header head)
  payload ← call (read_exact header.1)
  pure (record { tag = header.0; payload = payload })
