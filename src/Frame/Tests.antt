-- ===== src/Frame/Tests.antt =====
-- Frames over a list of bytes.
use tricoredb_sdk_rust.Common.{
  ℕ, ◌≤◌, ◌≡◌, refl, List, [], ◌∷◌, ◌++◌, length, arith, lt→ltb, le→ltb_false,
}
use tricoredb_sdk_rust.Environment.Scripted.{read_script, end_of_file}
use tricoredb_sdk_rust.Failure.{ErrorKind, ok, err}
use tricoredb_sdk_rust.Frame.{
  Tag, Frame, frame_version, as_u8, from_u8, max_payload, to_be_bytes, from_be_bytes, encode,
  read_frame, tag_error,
}
use tricoredb_sdk_rust.Frame.Reading.{
  IsReader, read_frame-encode, read_frame-eq-ok, read_frame_refuses, unknown,
}

abbrev all_of : List ℕ → List ℕ
all_of bytes = bytes

read_script-IsReader : IsReader read_script all_of
read_script-IsReader = record {
  fills = λ n r h. rw (le→ltb_false (length r) n h) refl;
  advances = λ n r h. rw (le→ltb_false (length r) n h) refl;
  falls_short = λ n r h. (end_of_file, rw (lt→ltb (length r) n h) refl);
}

abbrev pong_bytes : List ℕ
pong_bytes = 1 ∷ 5 ∷ 0 ∷ 0 ∷ 0 ∷ 2 ∷ 7 ∷ 8 ∷ []

read_frame-encode_example :
    ((read_frame read_script (pong_bytes ++ (9 ∷ []))).0
      ≡ ok (record { tag = Tag.pong; payload = 7 ∷ 8 ∷ [] }))
    × (all_of (read_frame read_script (pong_bytes ++ (9 ∷ []))).1 ≡ 9 ∷ [])
unfolding encode max_payload as_u8 to_be_bytes
read_frame-encode_example =
    read_frame-encode read_script all_of read_script-IsReader Tag.pong (7 ∷ 8 ∷ []) (9 ∷ [])
      pong_bytes (pong_bytes ++ (9 ∷ [])) refl refl

read_frame-eq-ok_example :
    (v : ℕ) × (v ≤ frame_version)
    × (2 ≤ max_payload Tag.pong)
    × (pong_bytes
        ≡ v
          ∷ as_u8 Tag.pong
          ∷ (to_be_bytes 2 ++ ((7 ∷ 8 ∷ []) ++ (read_frame read_script pong_bytes).1)))
unfolding read_frame tricoredb_sdk_rust.Frame.parse_header from_u8 max_payload from_be_bytes
read_frame-eq-ok_example =
    read_frame-eq-ok read_script all_of read_script-IsReader pong_bytes
      (record { tag = Tag.pong; payload = 7 ∷ 8 ∷ [] })
      (
        omega arith,
        (
          omega arith,
          (
            omega arith,
            (omega arith, (omega arith, (omega arith, (omega arith, (omega arith, tt))))),
          ),
        ),
      )
      refl

read_frame_refuses_example :
    ((read_frame read_script (1 ∷ 77 ∷ 0 ∷ 0 ∷ 0 ∷ 2 ∷ 7 ∷ 8 ∷ [])).0 ≡ err (tag_error 77))
    × ((tag_error 77).kind ≡ ErrorKind.protocol)
    × (all_of (read_frame read_script (1 ∷ 77 ∷ 0 ∷ 0 ∷ 0 ∷ 2 ∷ 7 ∷ 8 ∷ [])).1 ≡ 7 ∷ 8 ∷ [])
unfolding from_u8
read_frame_refuses_example =
    read_frame_refuses read_script all_of read_script-IsReader 1 77 0 0 0 2 (7 ∷ 8 ∷ [])
      (1 ∷ 77 ∷ 0 ∷ 0 ∷ 0 ∷ 2 ∷ 7 ∷ 8 ∷ []) (tag_error 77) refl (unknown (omega arith) refl)
