-- ===== src/Act.antt =====
-- Actions that carry a state through failures: what an action changed before it failed stays changed.
use tricoredb_sdk_rust.Common.{◌≡◌, ap, sym, subst, ◌∙◌, inl, inr}
use tricoredb_sdk_rust.Failure.{
  Error, Result, ok, err, IoError, IoResult, done, failed, map_err, from_io, ok-ne-err,
  err-injective, Result-cases,
}

abbrev pub Act : Type 0 → Type 0 → Type 0
Act S A = S → Result A × S

abbrev pub pure : {S A : Type 0} → A → Act S A
pure a s = (ok a, s)

abbrev pub raise : {S A : Type 0} → Error → Act S A
raise e s = (err e, s)

abbrev pub lift : {S A : Type 0} → Result A → Act S A
lift r s = (r, s)

-- What follows an action, given its result.
abbrev pub continue : {S A B : Type 0} → Result A → (A → Act S B) → Act S B
continue (ok a) f s = f a s
continue (err e) f s = (err e, s)

infixl 5 ◌>>=◌ ◌>>◌
abbrev pub ◌>>=◌ : {S A B : Type 0} → Act S A → (A → Act S B) → Act S B
◌>>=◌ m f s = continue (m s).0 f (m s).1

abbrev pub ◌>>◌ : {S B : Type 0} → Act S (Unit {0}) → Act S B → Act S B
m >> k = m >>= λ _. k

-- A call of `std::io`, its error converted.
abbrev pub call : {S A : Type 0} → (S → IoResult A × S) → Act S A
call m s = let (r, s') = m s in (map_err r, s')

-- A bind steps by its first action: into the rest after a success, to the same error otherwise.
pub >>=-of_ok :
    {S A B : Type 0} (m : Act S A) (f : A → Act S B) (s : S) {a : A}
    → (m s).0 ≡ ok a
    → (m >>= f) s ≡ f a (m s).1
>>=-of_ok m f s h = ap (λ r. continue r f (m s).1) h

pub >>=-of_err :
    {S A B : Type 0} (m : Act S A) (f : A → Act S B) (s : S) {e : Error}
    → (m s).0 ≡ err e
    → (m >>= f) s ≡ (err e, (m s).1)
>>=-of_err m f s h = ap (λ r. continue r f (m s).1) h

-- Inversion of a bind that ended in success.
pub >>=-eq-ok :
    {S A B : Type 0} (m : Act S A) (f : A → Act S B) (s : S) {b : B}
    → ((m >>= f) s).0 ≡ ok b
    → (a : A) × ((m s).0 ≡ ok a) × ((m >>= f) s ≡ f a (m s).1)
>>=-eq-ok {S} {A} {B} m f s h = elim (Result-cases (m s).0) [
  | inl (a, e) ↦ (a, e, >>=-of_ok m f s e)
  | inr (e, p) ↦ absurd (ok-ne-err (sym h ∙ ap (λ (x : Result B × S). x.0) (>>=-of_err m f s p)))
]

-- Every error that an action ends in has a property.
abbrev pub Fails : {S A : Type 0} → (Error → Type 0) → Act S A → Type 0
Fails {S} P m = (s : S) (e : Error) → (m s).0 ≡ err e → P e

module _ (P : Error → Type 0) where
  pub Fails-bind :
      {S A B : Type 0} (m : Act S A) (f : A → Act S B)
      → Fails P m
      → ((a : A) → Fails P (f a))
      → Fails P (m >>= f)
  Fails-bind {S} {A} {B} m f hm hf s e h = elim (Result-cases (m s).0) [
    | inl (a, p) ↦ hf a (m s).1 e (sym (ap (λ (x : Result B × S). x.0) (>>=-of_ok m f s p)) ∙ h)
    | inr (x, p) ↦
        let same : x ≡ e =
          err-injective (sym (ap (λ (y : Result B × S). y.0) (>>=-of_err m f s p)) ∙ h) in
        hm s e (p ∙ ap err same)
  ]

  pub Fails-call :
      {S A : Type 0} (m : S → IoResult A × S) → ((e : IoError) → P (from_io e)) → Fails P (call m)
  Fails-call {S} {A} m h s e p = go (m s).0 p
    where
      go : (r : IoResult A) → map_err r ≡ err e → P e
      go (done a) q = absurd (ok-ne-err q)
      go (failed x) q = subst P (err-injective q) (h x)

  pub Fails-lift :
      {S A : Type 0} (r : Result A) → ((e : Error) → r ≡ err e → P e) → Fails P (lift {S = S} r)
  Fails-lift r h s e p = h e p

  pub Fails-pure : {S A : Type 0} (a : A) → Fails P (pure {S = S} a)
  Fails-pure a s e h = absurd (ok-ne-err h)
