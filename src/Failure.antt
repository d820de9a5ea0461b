-- ===== src/Failure.antt =====
-- error.rs: the kinds of failure, how an `Error` is built, and what callers ask of one; with the
-- result type, and actions that carry a state through failures.
pub mod Display
use tricoredb_sdk_rust.Common.{
  ◌≡◌, ◌⊎◌, inl, inr, refl, Bool, true, false, Option, none, some, List, [], ◌∷◌, Text, codes,
  text_eq, ◌++◌,
}

pub data ErrorKind : Type 0 where
  io timeout protocol auth handshake server refused feature_not_granted : ErrorKind
  invalid_argument tls closed pool transaction_left_open : ErrorKind

pub record Error : Type 0 where
  pub kind : ErrorKind
  pub code : Option Text
  pub message : Text
  pub leader_hint : Option Text

-- `Error::new`.
abbrev pub new_error : ErrorKind → Text → Error
new_error k m = record { kind = k; code = none; message = m; leader_hint = none }

abbrev pub with_code : Error → Text → Error
with_code e c = record e { code = some c }

abbrev pub with_code_opt : Error → Option Text → Error
with_code_opt e c = record e { code = c }

abbrev pub protocol_error : Text → Error
protocol_error m = new_error protocol m

-- `Error::invalid`.
abbrev pub invalid : Text → Error
invalid m = new_error invalid_argument m

abbrev pub feature_refusal : Text → Error
feature_refusal m = with_code (new_error feature_not_granted m) (codes "feature_not_granted")

-- What `std::io::Error` tells: its kind and its printed form.
pub data IoErrorKind : Type 0 where
  timed_out would_block unexpected_eof other : IoErrorKind

pub record IoError : Type 0 where
  pub io_kind : IoErrorKind
  pub text : Text

unfoldable pub from_io_kind : IoErrorKind → Text → Error
from_io_kind timed_out t = new_error timeout (codes "no reply within the read deadline: " ++ t)
from_io_kind would_block t = new_error timeout (codes "no reply within the read deadline: " ++ t)
from_io_kind unexpected_eof t = new_error io (codes "the server closed the connection mid-frame")
from_io_kind other t = new_error io t

unfoldable pub from_io : IoError → Error
unfolding from_io_kind
from_io e = from_io_kind e.io_kind e.text

abbrev pub fatal_kind : ErrorKind → Bool
fatal_kind io = true
fatal_kind timeout = true
fatal_kind protocol = true
fatal_kind refused = true
fatal_kind closed = true
fatal_kind tls = true
fatal_kind handshake = true
fatal_kind _ = false

unfoldable pub is_connection_fatal : Error → Bool
is_connection_fatal e = fatal_kind e.kind

abbrev pub local_kind : ErrorKind → Bool
local_kind invalid_argument = true
local_kind feature_not_granted = true
local_kind _ = false

unfoldable pub was_refused_locally : Error → Bool
was_refused_locally e = local_kind e.kind

abbrev pub not_leader : Text
not_leader = codes "not_leader"

unfoldable pub code_is : Text → Option Text → Bool
code_is c none = false
code_is c (some d) = text_eq d c

unfoldable pub is_redirect : Error → Bool
unfolding code_is
is_redirect e = code_is not_leader e.code

pub data Result {ℓ} (A : Type ℓ) : Type ℓ where
  ok : A → Result A
  err : Error → Result A

-- `?`: the rest runs on a success, and an error is returned.
infixl 5 ◌>>=◌
abbrev pub ◌>>=◌ {ℓ κ} : {X : Type ℓ} {Y : Type κ} → Result X → (X → Result Y) → Result Y
err failure >>= rest = err failure
ok value >>= rest = rest value

infixl 5 ◌>>◌
abbrev pub ◌>>◌ {κ} : {Y : Type κ} → Result (Unit {0}) → Result Y → Result Y
check >> rest = check >>= λ u. rest

-- `Option::ok_or`.
abbrev pub ok_or {ℓ} : {A : Type ℓ} → Option A → Error → Result A
ok_or none e = err e
ok_or (some a) e = ok a

abbrev pub is_ok {ℓ} : {A : Type ℓ} → Result A → Bool
is_ok (ok a) = true
is_ok (err e) = false

pub Result-cases {ℓ} :
    {A : Type ℓ} (r : Result A) → ((a : A) × (r ≡ ok a)) ⊎ ((e : Error) × (r ≡ err e))
Result-cases (ok a) = inl (a, refl)
Result-cases (err e) = inr (e, refl)

-- `iter().map(f).collect::<Result<Vec<_>>>()`: the first failure is returned.
unfoldable pub collect : {A B : Type 0} → (A → Result B) → List A → Result (List B)
collect f [] = ok []
collect f (x ∷ xs) = let rest = collect f xs in do y ← f x; ys ← rest; ok (y ∷ ys)

-- Inversion of a successful bind.
pub >>=-eq-ok {ℓ κ} :
    {X : Type ℓ} {Y : Type κ} (first : Result X) (rest : X → Result Y) {out : Y}
    → (first >>= rest) ≡ ok out
    → (x : X) × (first ≡ ok x) × (rest x ≡ ok out)
>>=-eq-ok (err failure) rest p = cc
>>=-eq-ok (ok x) rest p = (x, refl, p)

pub ok_or-eq-ok {ℓ} :
    {A : Type ℓ} (o : Option A) (e : Error) {a : A} → ok_or o e ≡ ok a → o ≡ some a
ok_or-eq-ok none e h = cc
ok_or-eq-ok (some a) e h = cc

-- What a call of `std::io` returns.
pub data IoResult {ℓ} (A : Type ℓ) : Type ℓ where
  done : A → IoResult A
  failed : IoError → IoResult A

abbrev pub map_err {ℓ} : {A : Type ℓ} → IoResult A → Result A
map_err (done a) = ok a
map_err (failed e) = err (from_io e)

pub ok-injective {ℓ} : {A : Type ℓ} {a b : A} → ◌≡◌ {A = Result A} (ok a) (ok b) → a ≡ b
ok-injective h = cc

pub map_err-eq-ok {ℓ} : {A : Type ℓ} (r : IoResult A) {a : A} → map_err r ≡ ok a → r ≡ done a
map_err-eq-ok (done a) h = cc
map_err-eq-ok (failed e) h = cc

pub err-injective {ℓ} : {A : Type ℓ} {e f : Error} → ◌≡◌ {A = Result A} (err e) (err f) → e ≡ f
err-injective h = cc

pub ok-ne-err {ℓ} : {A : Type ℓ} {a : A} {e : Error} → ◌≡◌ {A = Result A} (ok a) (err e) → ⊥
ok-ne-err h = cc
