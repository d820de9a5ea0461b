-- ===== src/Frame/Reading.antt =====
-- Frames over a byte stream: what is written is read back, and what is read was a legal frame.
use tricoredb_sdk_rust.Common.{
  ℕ, ◌<◌, ◌≤◌, ◌≡◌, refl, ap, sym, ◌∙◌, List, [], ◌∷◌, ◌++◌, arith, length, take, drop, All,
  length-append, length-take, take-append_length, drop-append_length, take-append-drop, subst, some,
  none, All-append_left,
}
use mathlib.Core.Path.{ap₂}
use native.Mathlib.Decide.{dec_lt}
use tricoredb_sdk_rust.Failure.{
  Error, ErrorKind, ok, err, IoError, IoResult, done, failed, ok-injective, map_err-eq-ok,
}
use tricoredb_sdk_rust.Act.{call, lift, pure, >>=-eq-ok}
use tricoredb_sdk_rust.Frame.{
  Tag, Frame, frame_version, as_u8, max_payload, to_be_bytes, from_be_bytes, encode, read_frame,
  parse_header, tagged_header, within_limit, from_u8, version_error, tag_error, declared_error,
}
use tricoredb_sdk_rust.Frame.Tags.{
  from_u8-as_u8, from_u8-eq-some, max_payload-lt, declared_len-to_be_bytes,
  to_be_bytes-from_be_bytes,
}

-- What `Read::read_exact` promises of a stream with the given bytes to come: it takes the next `n`,
-- or fails when there are fewer.
pub record IsReader {R : Type 0} (read_exact : ℕ → R → IoResult (List ℕ) × R) (pending : R → List ℕ)
    : Type 0 where
  pub fills :
      (n : ℕ) (r : R) → n ≤ length (pending r) → (read_exact n r).0 ≡ done (take n (pending r))
  pub advances :
      (n : ℕ) (r : R) → n ≤ length (pending r) → pending (read_exact n r).1 ≡ drop n (pending r)
  pub falls_short :
      (n : ℕ) (r : R) → length (pending r) < n → (e : IoError) × ((read_exact n r).0 ≡ failed e)

abbrev pub IsBytes : List ℕ → Type 0
IsBytes = All (λ b. b < 256)

done-ne-failed : {A : Type 0} {a : A} {e : IoError} → ◌≡◌ {A = IoResult A} (done a) (failed e) → ⊥
done-ne-failed h = cc

done-injective : {A : Type 0} {a b : A} → ◌≡◌ {A = IoResult A} (done a) (done b) → a ≡ b
done-injective h = cc

encode-eq-ok :
    (t : Tag) (payload bytes : List ℕ)
    → encode t payload ≡ ok bytes
    → (length payload ≤ max_payload t)
      × (bytes ≡ 1 ∷ as_u8 t ∷ (to_be_bytes (length payload) ++ payload))
unfolding encode
encode-eq-ok t payload bytes h = ground arith

within_limit-eq : (t : Tag) (n m : ℕ) → n ≤ max_payload t → m ≡ n → within_limit t m ≡ ok (t, n)
unfolding within_limit
within_limit-eq t n m h e = ground arith

-- The header that `encode` writes is accepted, with its tag and length.
parse_header-encode :
    (t : Tag) (n : ℕ) → n ≤ max_payload t → parse_header (1 ∷ as_u8 t ∷ to_be_bytes n) ≡ ok (t, n)
unfolding parse_header
parse_header-encode t n h = rw from_u8-as_u8 (
    within_limit-eq t n _ h
      (declared_len-to_be_bytes 1 (as_u8 t) n (omega (arith, max_payload-lt t))))

parse_header-eq-ok :
    (head : List ℕ) (t : Tag) (n : ℕ)
    → length head ≡ 6
    → IsBytes head
    → parse_header head ≡ ok (t, n)
    → (v : ℕ) × (v ≤ 1) × (n ≤ max_payload t) × (head ≡ v ∷ as_u8 t ∷ to_be_bytes n)
unfolding parse_header tagged_header within_limit
parse_header-eq-ok [] t n l b h = absurd (omega arith)
parse_header-eq-ok (x ∷ []) t n l b h = absurd (omega arith)
parse_header-eq-ok (x ∷ y ∷ []) t n l b h = absurd (omega arith)
parse_header-eq-ok (x ∷ y ∷ z ∷ []) t n l b h = absurd (omega arith)
parse_header-eq-ok (x ∷ y ∷ z ∷ u ∷ []) t n l b h = absurd (omega arith)
parse_header-eq-ok (x ∷ y ∷ z ∷ u ∷ v ∷ []) t n l b h = absurd (omega arith)
parse_header-eq-ok (v ∷ y ∷ p ∷ q ∷ r ∷ s ∷ []) t n l b h = (
  v,
  ground arith,
  ground arith,
  ground (arith, from_u8-eq-some y t, to_be_bytes-from_be_bytes p q r s),
)
parse_header-eq-ok (x ∷ y ∷ z ∷ u ∷ v ∷ w ∷ a ∷ as') t n l b h = absurd (omega arith)

-- The error of a header by its version, its tag's byte and its declared length: the version is looked
-- at first, then the tag, then the length.
pub data Refused (v b n : ℕ) : Error → Type 0 where
  newer : frame_version < v → Refused v b n (version_error v)
  unknown : v ≤ frame_version → from_u8 b ≡ none → Refused v b n (tag_error b)
  oversized :
      (t : Tag)
      → v ≤ frame_version
      → from_u8 b ≡ some t
      → max_payload t < n
      → Refused v b n (declared_error t n)

parse_header_refuses :
    (v b p q s u : ℕ) (e : Error)
    → Refused v b (from_be_bytes p q s u) e
    → parse_header (v ∷ b ∷ p ∷ q ∷ s ∷ u ∷ []) ≡ err e
unfolding parse_header
parse_header_refuses v b p q s u e (newer h) = ground arith
parse_header_refuses v b p q s u e (unknown l h) = ground arith
parse_header_refuses v b p q s u e (oversized t l h m) = ground arith

Refused-protocol : {v b n : ℕ} {e : Error} → Refused v b n e → e.kind ≡ ErrorKind.protocol
unfolding version_error tag_error declared_error
Refused-protocol (newer h) = refl
Refused-protocol (unknown l h) = refl
Refused-protocol (oversized t l h m) = refl

module _ {R : Type 0} (read_exact : ℕ → R → IoResult (List ℕ) × R) (pending : R → List ℕ)
    (reader : IsReader read_exact pending) where
  reads :
      (xs ys : List ℕ) (r : R)
      → pending r ≡ xs ++ ys
      → ((read_exact (length xs) r).0 ≡ done xs) × (pending (read_exact (length xs) r).1 ≡ ys)
  reads xs ys r e = (
    reader.fills (length xs) r fits ∙ ap done (ap (take (length xs)) e ∙ take-append_length xs ys),
    reader.advances (length xs) r fits ∙ ap (drop (length xs)) e ∙ drop-append_length xs ys,
  )
    where
      fits : length xs ≤ length (pending r)
      fits = omega (arith, ap length e, length-append xs ys)

  reads-eq-done :
      (n : ℕ) (r : R) (xs : List ℕ)
      → (read_exact n r).0 ≡ done xs
      → (length xs ≡ n) × (pending r ≡ xs ++ pending (read_exact n r).1)
  reads-eq-done n r xs e = elim (dec_lt (length (pending r)) n) [
    | yes short ↦ let (f, p) = reader.falls_short n r short in absurd (done-ne-failed (sym e ∙ p))
    | no long ↦
        let fits : n ≤ length (pending r) = omega arith in
        let e' : xs ≡ take n (pending r) = done-injective (sym e ∙ reader.fills n r fits) in
        (
          rw e' (omega (arith, length-take n (pending r))),
          rw (e', reader.advances n r fits) (sym (take-append-drop n (pending r))),
        )
  ]

  read_frame-steps :
      (r : R) (head payload : List ℕ) (t : Tag) (n : ℕ)
      → (read_exact 6 r).0 ≡ done head
      → parse_header head ≡ ok (t, n)
      → (read_exact n (read_exact 6 r).1).0 ≡ done payload
      → read_frame read_exact r
        ≡ (ok (record { tag = t; payload = payload }), (read_exact n (read_exact 6 r).1).1)
  unfolding read_frame
  read_frame-steps r head payload t n e1 e2 e3 = rw e1 (rw e2 (rw e3 refl))

  read_frame-inv :
      (r : R) (f : Frame)
      → (read_frame read_exact r).0 ≡ ok f
      → (head : List ℕ) × (n : ℕ) × ((read_exact 6 r).0 ≡ done head)
        × (parse_header head ≡ ok (f.tag, n))
        × ((read_exact n (read_exact 6 r).1).0 ≡ done f.payload)
        × ((read_frame read_exact r).1 ≡ (read_exact n (read_exact 6 r).1).1)
  unfolding read_frame
  read_frame-inv r f h =
      let (head, e1, p1) = >>=-eq-ok (call (read_exact 6)) _ r h in
      let r1 = (read_exact 6 r).1 in
      let (header, e2, p2) =
        >>=-eq-ok (lift (parse_header head)) _ r1 (sym (ap (λ x. x.0) p1) ∙ h) in
      let (payload, e3, p3) =
        >>=-eq-ok (call (read_exact header.1)) (λ p. pure (record { tag = header.0; payload = p }))
          r1 (sym (ap (λ x. x.0) p2) ∙ sym (ap (λ x. x.0) p1) ∙ h) in
      let same : record { tag = header.0; payload = payload } ≡ f =
        ok-injective
          (sym (ap (λ x. x.0) p3) ∙ sym (ap (λ x. x.0) p2) ∙ sym (ap (λ x. x.0) p1) ∙ h) in
      (
        head,
        header.1,
        map_err-eq-ok _ e1,
        e2 ∙ ap (λ (g : Frame). ok (g.tag, header.1)) same,
        map_err-eq-ok _ e3 ∙ ap (λ (g : Frame). done g.payload) same,
        ap (λ x. x.1) p1 ∙ ap (λ x. x.1) p2 ∙ ap (λ x. x.1) p3,
      )

  -- A frame that was encoded is read back whole, and the stream stands at the byte behind it.
  pub read_frame-encode :
      (t : Tag) (payload rest bytes : List ℕ) (r : R)
      → encode t payload ≡ ok bytes
      → pending r ≡ bytes ++ rest
      → ((read_frame read_exact r).0 ≡ ok (record { tag = t; payload = payload }))
        × (pending (read_frame read_exact r).1 ≡ rest)
  unfolding to_be_bytes
  read_frame-encode t payload rest bytes r e p =
      let (fits, layout) = encode-eq-ok t payload bytes e in
      let head : List ℕ = 1 ∷ as_u8 t ∷ to_be_bytes (length payload) in
      let (h1, q1) = reads head (payload ++ rest) r (p ∙ ap (λ b. b ++ rest) layout) in
      let (h2, q2) = reads payload rest (read_exact 6 r).1 q1 in
      let steps =
        read_frame-steps r head payload t (length payload) h1
          (parse_header-encode t (length payload) fits) h2 in
      (ap (λ x. x.0) steps, ap (λ x. pending x.1) steps ∙ q2)

  -- A frame is accepted only from bytes of its layout, of version 0 or 1, with the tag's own byte and
  -- a length that is that of the payload and within the tag's ceiling; exactly those bytes are taken.
  pub read_frame-eq-ok :
      (r : R) (f : Frame)
      → IsBytes (pending r)
      → (read_frame read_exact r).0 ≡ ok f
      → (v : ℕ) × (v ≤ frame_version)
        × (length f.payload ≤ max_payload f.tag)
        × (pending r
            ≡ v
              ∷ as_u8 f.tag
              ∷ (to_be_bytes (length f.payload)
                  ++ (f.payload ++ pending (read_frame read_exact r).1)))
  read_frame-eq-ok r f b h =
      let (head, n, e1, e2, e3, p) = read_frame-inv r f h in
      let (l1, q1) = reads-eq-done 6 r head e1 in
      let (l2, q2) = reads-eq-done n (read_exact 6 r).1 f.payload e3 in
      let b1 : IsBytes head = All-append_left (λ c. c < 256) head _ (subst IsBytes q1 b) in
      let (v, le_v, le_n, shape) = parse_header-eq-ok head f.tag n l1 b1 e2 in
      (
        v,
        le_v,
        omega arith,
        q1
            ∙ ap₂ ◌++◌ (shape ∙ ap (λ k. v ∷ as_u8 f.tag ∷ to_be_bytes k) (sym l2))
                (q2 ∙ ap (λ x. f.payload ++ pending x) (sym p)),
      )

  -- A header is refused when its version is newer, or else its tag unknown, or else its declared
  -- length above the tag's ceiling, with the error that names the version, the byte of the tag, or the
  -- tag and the length; it is a protocol error, and no byte behind the header has been read.
  pub read_frame_refuses :
      (v b p q s u : ℕ) (rest : List ℕ) (r : R) (e : Error)
      → pending r ≡ (v ∷ b ∷ p ∷ q ∷ s ∷ u ∷ []) ++ rest
      → Refused v b (from_be_bytes p q s u) e
      → ((read_frame read_exact r).0 ≡ err e)
        × (e.kind ≡ ErrorKind.protocol)
        × (pending (read_frame read_exact r).1 ≡ rest)
  unfolding read_frame
  read_frame_refuses v b p q s u rest r x e why =
      let head : List ℕ = v ∷ b ∷ p ∷ q ∷ s ∷ u ∷ [] in
      let (h1, q1) = reads head rest r e in
      let h2 = parse_header_refuses v b p q s u x why in
      let steps : read_frame read_exact r ≡ (err x, (read_exact 6 r).1) = rw h1 (rw h2 refl) in
      (ap (λ y. y.0) steps, Refused-protocol why, ap (λ y. pending y.1) steps ∙ q1)
