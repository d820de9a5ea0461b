-- ===== src/Client/Prefix/Unique.antt =====
-- The prefixes of the connections of one process differ.
use tricoredb_sdk_rust.Common.{
  ℕ, zero, suc, ◌+◌, ◌*◌, ◌/◌, ◌%◌, ◌^◌, ◌-◌, ◌<◌, ◌≤◌, ◌≡◌, ◌≢◌, refl, sym, ap, subst, ◌∙◌, List,
  [], ◌∷◌, ◌++◌, Option, none, some, Text, ltb, arith, length, All, if◌then◌else◌,
}
use mathlib.Core.List.{tail-eq_of_cons-eq}
use tricoredb_sdk_rust.Client.Prefix.{hex_char, hex_of, show_hex, stamp_of, prefix_text, prefixes}

-- The value of a digit, and of digits behind a value.
digit_value : ℕ → ℕ
digit_value c = if ltb c 58 then c - 48 else c - 87

value_of : ℕ → Text → ℕ
unfolding digit_value
value_of v [] = v
value_of v (c ∷ t) = value_of (v * 16 + digit_value c) t

digit_value-hex_char : (d : ℕ) → d < 16 → digit_value (hex_char d) ≡ d
unfolding digit_value hex_char
digit_value-hex_char d h = ground arith

value_of-hex_of :
    (fuel n : ℕ) (acc : Text) → n ≤ fuel → value_of 0 (hex_of (suc fuel) n acc) ≡ value_of n acc
unfolding hex_of value_of hex_char digit_value
value_of-hex_of zero n acc h = ground arith
value_of-hex_of (suc fuel) n acc h =
    ground (arith, value_of-hex_of fuel (n / 16) (hex_char (n % 16) ∷ acc) (omega arith))

show_hex-injective : (m n : ℕ) → show_hex m ≡ show_hex n → m ≡ n
unfolding show_hex value_of
show_hex-injective m n h =
    sym (value_of-hex_of m m [] (omega arith))
    ∙ ap (value_of 0) h
    ∙ value_of-hex_of n n [] (omega arith)

pow16 : ℕ → ℕ
pow16 zero = 1
pow16 (suc k) = 16 * pow16 k

pow16_pos : (k : ℕ) → 1 ≤ pow16 k
unfolding pow16
pow16_pos zero = omega arith
pow16_pos (suc k) = omega (arith, pow16_pos k)

hex_of-more :
    (fuel n : ℕ) (acc : Text)
    → 16 ≤ n
    → hex_of (suc fuel) n acc ≡ hex_of fuel (n / 16) (hex_char (n % 16) ∷ acc)
unfolding hex_of
hex_of-more fuel n acc h = ground arith

-- The bounds of a number without its last digit.
shorter :
    (p n fuel : ℕ)
    → 1 ≤ p
    → n ≤ suc fuel
    → 16 * p ≤ n
    → n < 16 * (16 * p)
    → (16 ≤ n) × (n / 16 ≤ fuel) × (p ≤ n / 16) × (n / 16 < 16 * p)
shorter p n fuel o h l u = (omega arith, omega arith, omega arith, omega arith)

length-hex_of_digit :
    (fuel n : ℕ) (acc : Text) → n < 16 → length (hex_of (suc fuel) n acc) ≡ suc (length acc)
unfolding hex_of
length-hex_of_digit fuel n acc h = ground arith

length-hex_of :
    (k fuel n : ℕ) (acc : Text)
    → n ≤ fuel
    → pow16 k ≤ n
    → n < 16 * pow16 k
    → length (hex_of (suc fuel) n acc) ≡ suc k + length acc
unfolding pow16
length-hex_of zero fuel n acc h l u = length-hex_of_digit fuel n acc (omega arith) ∙ omega arith
length-hex_of (suc k) zero n acc h l u = absurd (omega (arith, pow16_pos k))
length-hex_of (suc k) (suc fuel) n acc h l u =
    let (more, b, l', u') = shorter (pow16 k) n fuel (pow16_pos k) h l u in
    ap length (hex_of-more (suc fuel) n acc more)
    ∙ length-hex_of k fuel (n / 16) (hex_char (n % 16) ∷ acc) b l' u'
    ∙ omega arith

append-split : (a b c d : Text) → length a ≡ length c → a ++ b ≡ c ++ d → b ≡ d
append-split [] b [] d l h = h
append-split [] b (x ∷ c) d l h = absurd (omega (arith, l))
append-split (x ∷ a) b [] d l h = absurd (omega (arith, l))
append-split (x ∷ a) b (y ∷ c) d l h =
    append-split a b c d (omega (arith, l)) (tail-eq_of_cons-eq h)

-- A reading of the clock that is printed with sixteen digits.
abbrev pub InEra : Option ℕ → Type 0
InEra none = ⊥
InEra (some nanos) = (2 ^ 60 ≤ nanos) × (nanos < 2 ^ 64)

length-show_hex : (t : Option ℕ) → InEra t → length (show_hex (stamp_of t)) ≡ 16
unfolding show_hex stamp_of pow16
length-show_hex none e = absurd e
length-show_hex (some n) e =
    let same : n % 2 ^ 64 ≡ n = omega (arith, e) in
    ap (λ m. length (show_hex m)) same
    ∙ length-hex_of 15 n n [] (omega arith) (omega (arith, e)) (omega (arith, e))

prefix_text-differ :
    (pid c d : ℕ) (t u : Option ℕ)
    → InEra t
    → InEra u
    → c ≢ d
    → prefix_text pid t c ≢ prefix_text pid u d
unfolding prefix_text
prefix_text-differ pid c d t u e f n h = n (
    show_hex-injective c d (
      append-split (show_hex (stamp_of t)) (show_hex c) (show_hex (stamp_of u)) (show_hex d)
        (length-show_hex t e ∙ sym (length-show_hex u f))
        (append-split (show_hex pid) _ (show_hex pid) _ refl h)))

-- No text occurs twice.
abbrev pub Unlike : List Text → Type 0
Unlike [] = Unit
Unlike (p ∷ ps) = All (λ q. p ≢ q) ps × Unlike ps

prefixes-later :
    (pid c d : ℕ) (t : Option ℕ) (ts : List (Option ℕ))
    → InEra t
    → All InEra ts
    → c < d
    → d + length ts ≤ 2 ^ 64
    → All (λ q. prefix_text pid t c ≢ q) (prefixes pid d ts)
unfolding prefixes
prefixes-later pid c d t [] e es h l = tt
prefixes-later pid c d t (u ∷ []) e es h l =
    (prefix_text-differ pid c d t u e es.0 (omega (arith, h)), tt)
prefixes-later pid c d t (u ∷ v ∷ ts) e es h l =
    let next : (d + 1) % 2 ^ 64 ≡ d + 1 = omega (arith, l) in
    (
      prefix_text-differ pid c d t u e es.0 (omega (arith, h)),
      subst (λ x. All (λ q. prefix_text pid t c ≢ q) (prefixes pid x (v ∷ ts))) (sym next)
          (prefixes-later pid c (d + 1) t (v ∷ ts) e es.1 (omega (arith, h)) (omega (arith, l))),
    )

-- The connections that one process opens have different prefixes, even where the clock stands still
-- or goes back: as long as the counter, of 64 bits, does not come round, and the clock reads between
-- 2^60 and 2^64 nanoseconds since the epoch, which are the years from 2006 to 2554.
pub prefixes-Unlike :
    (pid sequence : ℕ) (ts : List (Option ℕ))
    → All InEra ts
    → sequence + length ts ≤ 2 ^ 64
    → Unlike (prefixes pid sequence ts)
unfolding prefixes
prefixes-Unlike pid c [] es l = tt
prefixes-Unlike pid c (t ∷ []) es l = (tt, tt)
prefixes-Unlike pid c (t ∷ u ∷ ts) es l =
    let next : (c + 1) % 2 ^ 64 ≡ c + 1 = omega (arith, l) in
    subst
      (λ x.
        All (λ q. prefix_text pid t c ≢ q) (prefixes pid x (u ∷ ts))
        × Unlike (prefixes pid x (u ∷ ts)))
      (sym next)
      (
        prefixes-later pid c (c + 1) t (u ∷ ts) es.0 es.1 (omega arith) (omega (arith, l)),
        prefixes-Unlike pid (c + 1) (u ∷ ts) es.1 (omega (arith, l)),
      )
