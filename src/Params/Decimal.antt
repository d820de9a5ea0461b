-- ===== src/Params/Decimal.antt =====
-- The decimals that are accepted, against a grammar.
use tricoredb_sdk_rust.Common.{
  ℕ, ◌≤◌, ◌≡◌, ◌⊎◌, ◌↔◌, ◌≢◌, refl, inl, inr, true, false, [], ◌∷◌, ◌++◌, Option, none, some, Text,
  arith, all, All, is_empty, Bool-cases, ◌==◌, not, ◌||◌,
}
use tricoredb_sdk_rust.Address.{split_once, is_digit, prepend}
use tricoredb_sdk_rust.Failure.{ok}
use tricoredb_sdk_rust.Params.{
  validate_decimal, is_decimal, unsigned_ok, halves_of, decimal_parts, strip_sign,
}

abbrev pub AsciiDigit : ℕ → Type 0
AsciiDigit c = (b'0' ≤ c) × (c ≤ b'9')

-- An unsigned decimal: digits, with a point and digits behind it or not, and one digit at least.
pub data Unsigned : Text → Type 0 where
  whole : (d : ℕ) (int : Text) → AsciiDigit d → All AsciiDigit int → Unsigned (d ∷ int)
  pointed :
      (int frac body : Text)
      → All AsciiDigit int
      → All AsciiDigit frac
      → (int ≢ []) ⊎ (frac ≢ [])
      → body ≡ int ++ (b'.' ∷ frac)
      → Unsigned body

-- A decimal: an unsigned one, behind a sign or not.
pub data Decimal : Text → Type 0 where
  plain : (t : Text) → Unsigned t → Decimal t
  signed : (c : ℕ) (t : Text) → (c ≡ b'-') ⊎ (c ≡ b'+') → Unsigned t → Decimal (c ∷ t)

all-All : (t : Text) → all is_digit t ≡ true → All AsciiDigit t
all-All [] h = tt
all-All (c ∷ t) h = ground (arith, all-All t)

All-all : (t : Text) → All AsciiDigit t → all is_digit t ≡ true
All-all [] h = refl
All-all (c ∷ t) h = ground (arith, All-all t h.1)

-- A text of digits has no point to split at.
split_once-digits : (t : Text) → All AsciiDigit t → split_once b'.' t ≡ none
unfolding split_once
split_once-digits [] h = refl
split_once-digits (c ∷ t) h = ground (arith, split_once-digits t h.1)

split_once-pointed :
    (int frac : Text)
    → All AsciiDigit int
    → split_once b'.' (int ++ (b'.' ∷ frac)) ≡ some (int, frac)
unfolding split_once
split_once-pointed [] frac h = refl
split_once-pointed (c ∷ int) frac h = ground (arith, split_once-pointed int frac h.1)

later_point :
    (c : ℕ) (t a b : Text) (o : Option (Text × Text))
    → ((x y : Text) → split_once b'.' t ≡ some (x, y) → t ≡ x ++ (b'.' ∷ y))
    → split_once b'.' t ≡ o
    → prepend c o ≡ some (a, b)
    → c ∷ t ≡ a ++ (b'.' ∷ b)
later_point c t a b none rest p q = cc
later_point c t a b (some (x, y)) rest p q = cc (rest x y p)

split_once-eq-some : (t a b : Text) → split_once b'.' t ≡ some (a, b) → t ≡ a ++ (b'.' ∷ b)
unfolding split_once
split_once-eq-some [] a b h = cc
split_once-eq-some (c ∷ t) a b h = elim (Bool-cases (c == b'.')) [
  | inl e ↦ ground (arith, h, e)
  | inr e ↦
      later_point c t a b (split_once b'.' t) (split_once-eq-some t) refl (ground (arith, h, e))
]

nonempty : (t : Text) → t ≢ [] → is_empty t ≡ false
nonempty [] h = absurd (h refl)
nonempty (c ∷ t) h = refl

Unsigned-ok : (t : Text) → Unsigned t → unsigned_ok t ≡ true
unfolding unsigned_ok decimal_parts halves_of
Unsigned-ok _ (whole d t p q) = rw (split_once-digits (d ∷ t) (p, q)) (ground (arith, All-all t q))
Unsigned-ok t (pointed a f t' p q (inl r) e) =
    rw e (rw (split_once-pointed a f p) (ground (arith, All-all a p, All-all f q, nonempty a r)))
Unsigned-ok t (pointed a f t' p q (inr r) e) =
    rw e (rw (split_once-pointed a f p) (ground (arith, All-all a p, All-all f q, nonempty f r)))

whole-Unsigned : (t : Text) → decimal_parts t none ≡ true → Unsigned t
unfolding decimal_parts
whole-Unsigned [] h = cc
whole-Unsigned (d ∷ t) h = let (p, q) = all-All (d ∷ t) (ground (arith, h)) in whole d t p q

one_nonempty : (a f : Text) → (not (is_empty a) || not (is_empty f)) ≡ true → (a ≢ []) ⊎ (f ≢ [])
one_nonempty [] [] h = cc
one_nonempty [] (c ∷ f) h = inr (λ e. cc)
one_nonempty (c ∷ a) f h = inl (λ e. cc)

pointed-Unsigned :
    (t a f : Text) → t ≡ a ++ (b'.' ∷ f) → decimal_parts a (some f) ≡ true → Unsigned t
unfolding decimal_parts
pointed-Unsigned t a f e h =
    pointed a f t (all-All a (ground (arith, h))) (all-All f (ground (arith, h)))
      (one_nonempty a f (ground (arith, h))) e

ok-Unsigned : (t : Text) → unsigned_ok t ≡ true → Unsigned t
unfolding unsigned_ok halves_of
ok-Unsigned t h = split (split_once b'.' t) refl h
  where
    split :
        (o : Option (Text × Text))
        → split_once b'.' t ≡ o
        → decimal_parts (halves_of t o).0 (halves_of t o).1 ≡ true
        → Unsigned t
    split none e h' = whole-Unsigned t h'
    split (some (a, f)) e h' = pointed-Unsigned t a f (split_once-eq-some t a f e) h'

-- An unsigned decimal begins with a digit or a point, so no sign is stripped from it.
strip_sign-Unsigned : (t : Text) → Unsigned t → strip_sign t ≡ t
unfolding strip_sign
strip_sign-Unsigned _ (whole d t p q) = ground arith
strip_sign-Unsigned t (pointed [] f t' p q r e) = rw e refl
strip_sign-Unsigned t (pointed (c ∷ a) f t' p q r e) = rw e (ground arith)

Decimal-is_decimal : (t : Text) → Decimal t → is_decimal t ≡ true
unfolding is_decimal strip_sign
Decimal-is_decimal _ (plain t u) = rw (strip_sign-Unsigned t u) (Unsigned-ok t u)
Decimal-is_decimal _ (signed c t (inl e) u) = rw e (Unsigned-ok t u)
Decimal-is_decimal _ (signed c t (inr e) u) = rw e (Unsigned-ok t u)

is_decimal-Decimal : (t : Text) → is_decimal t ≡ true → Decimal t
unfolding is_decimal strip_sign
is_decimal-Decimal [] h = plain [] (ok-Unsigned [] h)
is_decimal-Decimal (c ∷ t) h = elim (Bool-cases (c == b'-')) [
  | inl e ↦ signed c t (inl (ground (arith, e))) (ok-Unsigned t (rw e at h))
  | inr e ↦ elim (Bool-cases (c == b'+')) [
    | inl f ↦ signed c t (inr (ground (arith, f))) (ok-Unsigned t (rw f at (rw e at h)))
    | inr f ↦ plain (c ∷ t) (ok-Unsigned (c ∷ t) (rw f at (rw e at h)))
  ]
]

-- A text is accepted as a decimal exactly if it is one by the grammar: a sign or none, digits, a
-- point with digits behind it or none, at least one digit, and nothing else, so no exponent.
pub validate_decimal_iff : (t : Text) → (validate_decimal t ≡ ok tt) ↔ Decimal t
unfolding validate_decimal
validate_decimal_iff t =
    (λ h. is_decimal-Decimal t (ground (arith, h)), λ d. rw (Decimal-is_decimal t d) refl)
