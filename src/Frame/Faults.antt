-- ===== src/Frame/Faults.antt =====
-- The errors of frames carry no code, so none of them is taken for a refusal by the server.
use tricoredb_sdk_rust.Act.{Fails, Fails-bind, Fails-call, Fails-lift, Fails-pure}
use tricoredb_sdk_rust.Common.{ℕ, ◌≡◌, List, none, arith}
use tricoredb_sdk_rust.Failure.{Error, err, IoError, IoErrorKind, IoResult, from_io, from_io_kind}
use tricoredb_sdk_rust.Frame.{
  Tag, encode, write_frame, read_frame, parse_header, tagged_header, within_limit, header_len,
  too_large_to_send, version_error, tag_error, declared_error,
}

abbrev pub NoCode : Error → Type 0
NoCode e = e.code ≡ none

pub from_io-NoCode : (e : IoError) → NoCode (from_io e)
unfolding from_io
from_io-NoCode e = go e.io_kind
  where
    go : (k : IoErrorKind) → NoCode (from_io_kind k e.text)
    go k = ground arith

pub encode-NoCode : (t : Tag) (payload : List ℕ) (e : Error) → encode t payload ≡ err e → NoCode e
unfolding encode too_large_to_send
encode-NoCode t payload e h = ground arith

parse_header-NoCode : (head : List ℕ) (e : Error) → parse_header head ≡ err e → NoCode e
unfolding parse_header tagged_header within_limit version_error tag_error declared_error
parse_header-NoCode head e h = ground arith

pub write_frame-NoCode :
    {W : Type 0} (write_all : List ℕ → W → IoResult (Unit {0}) × W)
    (flush : W → IoResult (Unit {0}) × W) (t : Tag) (payload : List ℕ)
    → Fails NoCode (write_frame write_all flush t payload)
unfolding write_frame
write_frame-NoCode write_all flush t payload =
    Fails-bind NoCode _ _ (Fails-lift NoCode _ (encode-NoCode t payload)) λ bytes.
      Fails-bind NoCode _ _ (Fails-call NoCode (write_all bytes) from_io-NoCode)
        λ _. Fails-call NoCode flush from_io-NoCode

pub read_frame-NoCode :
    {R : Type 0} (read_exact : ℕ → R → IoResult (List ℕ) × R) → Fails NoCode (read_frame read_exact)
unfolding read_frame
read_frame-NoCode read_exact =
    Fails-bind NoCode _ _ (Fails-call NoCode (read_exact header_len) from_io-NoCode) λ head.
      Fails-bind NoCode _ _ (Fails-lift NoCode _ (parse_header-NoCode head)) λ header.
        Fails-bind NoCode _ _ (Fails-call NoCode (read_exact header.1) from_io-NoCode)
          λ payload. Fails-pure NoCode (record { tag = header.0; payload = payload })
