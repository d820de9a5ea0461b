-- ===== src/Address/RoundTrip.antt =====
-- An address that the client writes is the address that it reads.
use tricoredb_sdk_rust.Common.{
  ℕ, zero, suc, ◌+◌, ◌/◌, ◌%◌, ◌<◌, ◌≤◌, ◌≡◌, refl, ap, ◌∙◌, Bool, true, false, [], ◌∷◌, ◌++◌, none,
  some, Text, arith, digits_of, show_nat, all, is_empty, ◌==◌, if◌then◌else◌,
}
use tricoredb_sdk_rust.Address.{
  colon, open_bracket, close_bracket, is_digit, contains_char, or_here, rsplit_once, split_bracket,
  parse_digits, parse_unsigned, parse_u16, checked, with_port, split_address, join_address,
}

digits_of-digits :
    (fuel n : ℕ) (acc : Text) → all is_digit acc ≡ true → all is_digit (digits_of fuel n acc) ≡ true
unfolding digits_of
digits_of-digits zero n acc h = h
digits_of-digits (suc fuel) n acc h =
    ground (arith, h, digits_of-digits fuel (n / 10) ((48 + n % 10) ∷ acc))

digits_of-nonempty : (fuel n d : ℕ) (acc : Text) → is_empty (digits_of fuel n (d ∷ acc)) ≡ false
unfolding digits_of
digits_of-nonempty zero n d acc = refl
digits_of-nonempty (suc fuel) n d acc =
    ground (arith, digits_of-nonempty fuel (n / 10) (48 + n % 10) (d ∷ acc))

show_nat-nonempty : (n : ℕ) → is_empty (show_nat n) ≡ false
unfolding show_nat digits_of
show_nat-nonempty n = ground (arith, digits_of-nonempty n (n / 10) (48 + n % 10) [])

parse_digits-digits_of :
    (fuel n : ℕ) (acc : Text)
    → n ≤ fuel
    → n ≤ 65535
    → parse_digits 0 (digits_of (suc fuel) n acc) ≡ parse_digits n acc
unfolding digits_of parse_digits
parse_digits-digits_of zero n acc h l = ground arith
parse_digits-digits_of (suc fuel) n acc h l =
    ground (
      arith,
      parse_digits-digits_of fuel (n / 10) ((48 + n % 10) ∷ acc) (omega arith) (omega arith),
    )

parse_u16-digits :
    (t : Text) → all is_digit t ≡ true → is_empty t ≡ false → parse_u16 t ≡ parse_digits 0 t
unfolding parse_u16 parse_unsigned
parse_u16-digits [] h e = cc
parse_u16-digits (c ∷ t) h e = ground (arith, h)

parse_u16-show_nat : (n : ℕ) → n ≤ 65535 → parse_u16 (show_nat n) ≡ some n
unfolding show_nat parse_digits
parse_u16-show_nat n h =
    parse_u16-digits (show_nat n) (digits_of-digits (suc n) n [] refl) (show_nat-nonempty n)
    ∙ parse_digits-digits_of n n [] (omega arith) h

digits-no_colon : (t : Text) → all is_digit t ≡ true → contains_char colon t ≡ false
digits-no_colon [] h = refl
digits-no_colon (c ∷ t) h = ground (arith, h, digits-no_colon t)

rsplit_once-none : (c : ℕ) (t : Text) → contains_char c t ≡ false → rsplit_once c t ≡ none
unfolding rsplit_once or_here
rsplit_once-none c [] h = refl
rsplit_once-none c (x ∷ t) h = ground (arith, h, rsplit_once-none c t)

rsplit_once-append :
    (c : ℕ) (s t : Text) → contains_char c t ≡ false → rsplit_once c (s ++ (c ∷ t)) ≡ some (s, t)
unfolding rsplit_once or_here
rsplit_once-append c [] t h = rw (rsplit_once-none c t h) (ground arith)
rsplit_once-append c (x ∷ s) t h = rw (rsplit_once-append c s t h) refl

split_bracket-append :
    (s t : Text)
    → contains_char close_bracket s ≡ false
    → split_bracket (s ++ (close_bracket ∷ colon ∷ t)) ≡ some (s, t)
unfolding split_bracket
split_bracket-append [] t h = refl
split_bracket-append (x ∷ []) t h = ground (arith, h)
split_bracket-append (x ∷ y ∷ s) t h =
    rw (split_bracket-append (y ∷ s) t (ground (arith, h))) (ground (arith, h))

show_nat-no_colon : (n : ℕ) → contains_char colon (show_nat n) ≡ false
unfolding show_nat
show_nat-no_colon n = digits-no_colon (show_nat n) (digits_of-digits (suc n) n [] refl)

-- A host that an address can name: not empty, and without square brackets.
pub record IsHost (host : Text) : Type 0 where
  pub named : is_empty host ≡ false
  pub unopened : contains_char open_bracket host ≡ false
  pub unclosed : contains_char close_bracket host ≡ false

with_port-show_nat :
    (host : Text) (port : ℕ)
    → is_empty host ≡ false
    → 0 < port
    → port ≤ 65535
    → with_port (some (host, show_nat port)) ≡ some (host, port)
unfolding with_port checked
with_port-show_nat host port h l u = rw (parse_u16-show_nat port u, h) (ground arith)

plain_address :
    (host t : Text)
    → is_empty host ≡ false
    → contains_char open_bracket host ≡ false
    → contains_char colon t ≡ false
    → split_address (host ++ (colon ∷ t)) ≡ with_port (some (host, t))
unfolding split_address
plain_address [] t e o h = cc
plain_address (c ∷ host) t e o h =
    rw (first_differs c host o) (ap with_port (rsplit_once-append colon (c ∷ host) t h))
  where
    first_differs :
        (c : ℕ) (host : Text)
        → contains_char open_bracket (c ∷ host) ≡ false
        → (c == open_bracket) ≡ false
    first_differs c host o = ground (arith, o)

-- A host, without square brackets and not empty, and a port of sixteen bits other than zero come back
-- from the address that they are joined to, a host with colons (an IPv6 address) included.
pub split_address-join_address :
    (host : Text) (port : ℕ)
    → IsHost host
    → 0 < port
    → port ≤ 65535
    → split_address (join_address host port) ≡ some (host, port)
unfolding split_address join_address
split_address-join_address host port h l u = go (contains_char colon host)
  where
    go :
        (b : Bool)
        → split_address (
            if b
            then open_bracket ∷ (host ++ (close_bracket ∷ colon ∷ show_nat port))
            else host ++ (colon ∷ show_nat port))
          ≡ some (host, port)
    go true =
        ap with_port (split_bracket-append host (show_nat port) h.unclosed)
        ∙ with_port-show_nat host port h.named l u
    go false =
        plain_address host (show_nat port) h.named h.unopened (show_nat-no_colon port)
        ∙ with_port-show_nat host port h.named l u
