-- ===== src/Wire/RoundTrip.antt =====
-- Byte strings come back as they were sent, and nothing but a byte string is read as one.
use tricoredb_sdk_rust.Common.{
  ℕ, ◌+◌, ◌<◌, ◌≡◌, ◌↔◌, refl, ap, subst, ◌∙◌, ◌⊎◌, inl, inr, List, [], ◌∷◌, map, Text, Option,
  arith, All, none, some, false,
}
use mathlib.Core.Path.{subst₂, ap₂}
use tricoredb_sdk_rust.Failure.{ok, collect, >>=-eq-ok, ok_or-eq-ok, is_ok}
use tricoredb_sdk_rust.Json.{Value, Number, as_array, array, num, to_list-of_list, as_array-eq-some}
use tricoredb_sdk_rust.Wire.{
  byte_list, byte_lists, decode_byte, decode_bytes, decode_byte_list, decode_byte_lists,
  decode_pair, pair_of, array_or_empty,
}

-- The bytes of a Rust `Vec<u8>`.
abbrev pub IsBytes : List ℕ → Type 0
IsBytes = All (λ b. b < 256)

map-num_eq :
    (vs : List Value) (bs cs : List ℕ)
    → vs ≡ map num bs
    → IsBytes bs
    → bs ≡ cs
    → (vs ≡ map num cs) × IsBytes cs
map-num_eq vs bs cs e h p = subst (λ ds. (vs ≡ map num ds) × IsBytes ds) p (e, h)

pair-IsBytes :
    (v : Value) (f w f' w' : List ℕ)
    → v ≡ array (byte_list f ∷ byte_list w ∷ [])
    → IsBytes f
    → IsBytes w
    → f ≡ f'
    → w ≡ w'
    → (v ≡ array (byte_list f' ∷ byte_list w' ∷ [])) × IsBytes f' × IsBytes w'
pair-IsBytes v f w f' w' e lf lw p q =
    subst₂ (λ g u. (v ≡ array (byte_list g ∷ byte_list u ∷ [])) × IsBytes g × IsBytes u) p q
      (e, lf, lw)

pair_of-eq-ok :
    (v a b : Value) → pair_of (array_or_empty (as_array v)) ≡ ok (a, b) → v ≡ array (a ∷ b ∷ [])
pair_of-eq-ok v a b h = go (as_array v) refl h
  where
    go :
        (o : Option (List Value))
        → as_array v ≡ o
        → pair_of (array_or_empty o) ≡ ok (a, b)
        → v ≡ array (a ∷ b ∷ [])
    go none e h' = cc
    go (some []) e h' = cc
    go (some (x ∷ [])) e h' = cc
    go (some (x ∷ y ∷ [])) e h' = as_array-eq-some v (a ∷ b ∷ []) (cc)
    go (some (x ∷ y ∷ z ∷ vs)) e h' = cc

module _ (to_string : Value → Text) where
  decode_byte-num : (i b : ℕ) → b < 256 → decode_byte to_string i (num b) ≡ ok b
  unfolding decode_byte
  decode_byte-num i b h = ground arith

  decode_byte-eq-ok :
      (i : ℕ) (v : Value) (b : ℕ) → decode_byte to_string i v ≡ ok b → (v ≡ num b) × (b < 256)
  unfolding decode_byte
  decode_byte-eq-ok i (Value.number (Number.pos_int n)) b h = ground arith
  decode_byte-eq-ok i (Value.number (Number.neg_int n)) b h = cc
  decode_byte-eq-ok i (Value.number (Number.float n)) b h = cc
  decode_byte-eq-ok i Value.null b h = cc
  decode_byte-eq-ok i (Value.bool x) b h = cc
  decode_byte-eq-ok i (Value.string x) b h = cc
  decode_byte-eq-ok i (Value.arr x) b h = cc
  decode_byte-eq-ok i (Value.obj x) b h = cc

  decode_bytes-map :
      (i : ℕ) (bs : List ℕ) → IsBytes bs → decode_bytes to_string i (map num bs) ≡ ok bs
  unfolding decode_bytes
  decode_bytes-map i [] h = refl
  decode_bytes-map i (b ∷ bs) h = rw (decode_byte-num i b h.0, decode_bytes-map (i + 1) bs h.1) refl

  decode_bytes-eq-ok :
      (i : ℕ) (vs : List Value) (bs : List ℕ)
      → decode_bytes to_string i vs ≡ ok bs
      → (vs ≡ map num bs) × IsBytes bs
  unfolding decode_bytes
  decode_bytes-eq-ok i [] bs h = map-num_eq [] [] bs refl tt (cc)
  decode_bytes-eq-ok i (v ∷ vs) bs h =
      let (b, eb, h') = >>=-eq-ok (decode_byte to_string i v) _ h in
      let (bs', ebs, h'') = >>=-eq-ok (decode_bytes to_string (i + 1) vs) _ h' in
      let (ev, lt) = decode_byte-eq-ok i v b eb in
      let (evs, all_lt) = decode_bytes-eq-ok (i + 1) vs bs' ebs in
      map-num_eq (v ∷ vs) (b ∷ bs') bs (cc) (lt, all_lt) (cc)

  pub decode_byte_list-byte_list :
      (bs : List ℕ) → IsBytes bs → decode_byte_list to_string (byte_list bs) ≡ ok bs
  unfolding decode_byte_list byte_list
  decode_byte_list-byte_list bs h = rw to_list-of_list (decode_bytes-map 0 bs h)

  pub decode_byte_list-eq-ok :
      (v : Value) (bs : List ℕ)
      → decode_byte_list to_string v ≡ ok bs
      → (v ≡ byte_list bs) × IsBytes bs
  unfolding decode_byte_list byte_list
  decode_byte_list-eq-ok v bs h =
      let (items, e, h') = >>=-eq-ok _ _ h in
      let (em, lt) = decode_bytes-eq-ok 0 items bs h' in
      (as_array-eq-some v items (ok_or-eq-ok (as_array v) _ e) ∙ ap array em, lt)

  -- A JSON value is read as a byte string exactly if it is the array that the string is sent as,
  -- each number below 256: strings survive the wire, nothing else is accepted, nothing is masked.
  pub decode_byte_list_iff :
      (v : Value) (bs : List ℕ)
      → (decode_byte_list to_string v ≡ ok bs) ↔ ((v ≡ byte_list bs) × IsBytes bs)
  decode_byte_list_iff v bs =
      (decode_byte_list-eq-ok v bs, λ h. rw h.0 (decode_byte_list-byte_list bs h.1))

  collect-byte_list :
      (bss : List (List ℕ))
      → All IsBytes bss
      → collect (decode_byte_list to_string) (map byte_list bss) ≡ ok bss
  unfolding collect
  collect-byte_list [] h = refl
  collect-byte_list (bs ∷ bss) h =
      rw (decode_byte_list-byte_list bs h.0, collect-byte_list bss h.1) refl

  -- A list of byte strings is refused when it is empty, and is otherwise sent as a value from which
  -- the same list is read back.
  pub decode_byte_lists-byte_lists :
      (bss : List (List ℕ)) (name : Text)
      → All IsBytes bss
      → ((bss ≡ []) × (is_ok (byte_lists bss name) ≡ false))
        ⊎ ((v : Value) × (byte_lists bss name ≡ ok v) × (decode_byte_lists to_string v ≡ ok bss))
  unfolding byte_lists decode_byte_lists
  decode_byte_lists-byte_lists [] name h = inl (refl, refl)
  decode_byte_lists-byte_lists (bs ∷ bss) name h =
      inr (
        array (map byte_list (bs ∷ bss)),
        refl,
        rw to_list-of_list (collect-byte_list (bs ∷ bss) h),
      )

  -- A value is read as a field and a value exactly if it is an array of two byte arrays.
  pub decode_pair_iff :
      (v : Value) (f w : List ℕ)
      → (decode_pair to_string v ≡ ok (f, w))
        ↔ ((v ≡ array (byte_list f ∷ byte_list w ∷ [])) × IsBytes f × IsBytes w)
  unfolding decode_pair
  decode_pair_iff v f w = (
    λ h.
        let (halves, e, h1) = >>=-eq-ok (pair_of (array_or_empty (as_array v))) _ h in
        let (f', ef, h2) = >>=-eq-ok (decode_byte_list to_string halves.0) _ h1 in
        let (w', ew, h3) = >>=-eq-ok (decode_byte_list to_string halves.1) _ h2 in
        let (ef', lf) = decode_byte_list-eq-ok halves.0 f' ef in
        let (ew', lw) = decode_byte_list-eq-ok halves.1 w' ew in
        pair-IsBytes v f' w' f w
          (pair_of-eq-ok v halves.0 halves.1 e ∙ ap₂ (λ a b. array (a ∷ b ∷ [])) ef' ew') lf lw (cc)
          (cc),
    λ h. rw (h.0, decode_byte_list-byte_list f h.1) (rw (decode_byte_list-byte_list w h.2) refl),
  )
