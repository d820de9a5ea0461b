-- ===== src/Client/Sending/Requests/Outcomes.antt =====
-- What the operations around one request hand back, and what they leave of the session.
use tricoredb_sdk_rust.Act.{lift, ◌>>=◌, continue, >>=-of_ok, >>=-of_err}
use tricoredb_sdk_rust.Common.{
  ◌≡◌, ◌≢◌, refl, sym, ap, ◌∙◌, Bool, true, false, Option, none, some, Text, codes, text_eq,
  text_eq_refl, is_empty, if◌then◌else◌,
}
use tricoredb_sdk_rust.Environment.{Environment}
use tricoredb_sdk_rust.Failure.{
  ErrorKind, Error, Result, ok, err, ok-injective, ok-ne-err, was_refused_locally, protocol_error,
}
use tricoredb_sdk_rust.Json.{Value}
use tricoredb_sdk_rust.Response.{Response, Parsed, parsed, expect, decode}
use tricoredb_sdk_rust.Client.{Client, Session, Call, forget_txn, same_txn}
use tricoredb_sdk_rust.Client.Sending.{send, send_in}
use tricoredb_sdk_rust.Client.Sending.Requests.{
  null_or, named, send_nullable, send_begin, send_ending, forgotten,
}

forget_txn-names :
    {S T : Type 0} (txn : Text) (c : Client S T) → (forget_txn txn c).request_txn ≢ some txn
unfolding forget_txn same_txn
forget_txn-names txn c = go (same_txn c.request_txn txn) refl
  where
    go :
        (b : Bool)
        → same_txn c.request_txn txn ≡ b
        → (if b then record c { request_txn = none } else c).request_txn ≢ some txn
    go true p h = cc
    go false p h =
        let q : text_eq txn txn ≡ false = ap (λ o. same_txn o txn) (sym h) ∙ p in
        let same : text_eq txn txn ≡ true = text_eq_refl txn in cc

-- What a reading of an outcome leaves, and what it gives.
continue-lift :
    {Z X Y : Type 0} (r : Result X) (f : X → Result Y) (s : Z)
    → (continue r (λ x. lift (f x)) s).1 ≡ s
continue-lift (ok x) f s = refl
continue-lift (err e) f s = refl

continue-ok :
    {Z X Y : Type 0} (r : Result X) (f : X → Result Y) (s : Z) {y : Y}
    → (continue r (λ x. lift (f x)) s).0 ≡ ok y
    → (x : X) × (f x ≡ ok y)
continue-ok (ok x) f s h = (x, h)
continue-ok (err e) f s h = absurd (ok-ne-err (sym h))

named-ok : (r : Result Text) (id : Text) → named r ≡ ok id → is_empty id ≡ false
unfolding named
named-ok (err e) id h = absurd (ok-ne-err (sym h))
named-ok (ok i) id h = go (is_empty i) refl h
  where
    go :
        (b : Bool)
        → is_empty i ≡ b
        → (if b
            then err (protocol_error (codes "BeginTransaction answered with no transaction id"))
            else ok i)
          ≡ ok id
        → is_empty id ≡ false
    go true p q = absurd (ok-ne-err (sym q))
    go false p q = let same : i ≡ id = ok-injective q in ap is_empty (sym same) ∙ p

null_or-null : {B : Type 0} (b : Result B) → null_or b (ok Value.null) ≡ ok none
unfolding null_or
null_or-null (ok b) = refl
null_or-null (err e) = refl

null_or-some :
    {B : Type 0} (b : B) (v : Value) → v ≢ Value.null → null_or (ok b) (ok v) ≡ ok (some b)
unfolding null_or
null_or-some b Value.null h = absurd (h refl)
null_or-some b (Value.bool x) h = refl
null_or-some b (Value.number n) h = refl
null_or-some b (Value.string t) h = refl
null_or-some b (Value.arr xs) h = refl
null_or-some b (Value.obj fs) h = refl

pub expect-kind :
    (r : Response) (kind what : Text) → r.kind ≡ kind → expect r kind what ≡ ok r.data_value
unfolding expect
expect-kind r kind what h = rw h (rw (text_eq_refl kind) refl)

pub decode-parsed :
    {B : Type 0} (read : Value → Parsed B) (r : Response) (what : Text) (b : B)
    → r.kind ≡ codes "Json"
    → read r.data_value ≡ parsed b
    → decode read r what ≡ ok b
unfolding decode
decode-parsed read r what b h p = rw (expect-kind r (codes "Json") what h) (rw p refl)

module _ {W A S T : Type 0} (env : Environment W A S T) where
  -- A call that fails as refused locally and leaves the client and the world as they were.
  abbrev pub RefusedHere : {B : Type 0} → Call env B → Type 0
  RefusedHere {B} call =
      (s : Session W S T) → (e : Error) × (was_refused_locally e ≡ true) × (call s ≡ (err e, s))

  -- A call that fails as an invalid argument and leaves the client and the world as they were.
  abbrev pub RefusedInvalid : {B : Type 0} → Call env B → Type 0
  RefusedInvalid {B} call =
      (s : Session W S T)
      → (e : Error) × (e.kind ≡ ErrorKind.invalid_argument) × (call s ≡ (err e, s))

  -- A call that sends one request outside any transaction, hands on its error, and else the id that
  -- the reply names, which is not empty.
  abbrev pub Opens : Value → (Response → Result Text) → Call env Text → Type 0
  Opens request read call =
      (s : Session W S T)
      → let out = send_in env request none s in
        ((call s).1 ≡ out.1)
        × ((e : Error) → out.0 ≡ err e → (call s).0 ≡ err e)
        × ((r : Response) → out.0 ≡ ok r → (call s).0 ≡ named (read r))
        × ((id : Text) → (call s).0 ≡ ok id → is_empty id ≡ false)

  -- A call that sends one request inside the transaction `txn`: whatever comes of it, the client
  -- names that transaction no longer, and nothing else differs from what the request left.
  abbrev pub Closes : {B : Type 0} → Value → Text → (Response → Result B) → Call env B → Type 0
  Closes request txn read call =
      (s : Session W S T)
      → let out = send_in env request (some txn) s in
        ((call s).1 ≡ forgotten txn out.1)
        × ((call s).1.client.request_txn ≢ some txn)
        × ((e : Error) → out.0 ≡ err e → (call s).0 ≡ err e)
        × ((r : Response) → out.0 ≡ ok r → (call s).0 ≡ read r)

  pub send_ending-Closes :
      {B : Type 0} (request : Value) (txn : Text) (read : Response → Result B)
      → Closes request txn read (send_ending env request txn >>= λ r. lift (read r))
  unfolding send_ending forgotten
  send_ending-Closes request txn read s =
      let out = send_in env request (some txn) s in
      let kept = continue-lift out.0 read (forgotten txn out.1) in
      (
        kept,
        λ h. forget_txn-names txn out.1.client (sym (ap (λ x. x.client.request_txn) kept) ∙ h),
        λ e h. ap (λ r. (continue r (λ x. lift (read x)) (forgotten txn out.1)).0) h,
        λ r h. ap (λ r. (continue r (λ x. lift (read x)) (forgotten txn out.1)).0) h,
      )

  pub send_begin-Opens :
      (request : Value) (read : Value → Parsed Text)
      → Opens request (λ r. decode read r (codes "BeginTransaction")) (send_begin env read request)
  unfolding send_begin
  send_begin-Opens request read s =
      let out = send_in env request none s in
      let given : Response → Result Text = λ r. named (decode read r (codes "BeginTransaction")) in
      (
        continue-lift out.0 given out.1,
        λ e h. ap (λ r. (continue r (λ x. lift (given x)) out.1).0) h,
        λ r h. ap (λ r. (continue r (λ x. lift (given x)) out.1).0) h,
        λ id h.
            let (r, p) = continue-ok out.0 given out.1 h in
            named-ok (decode read r (codes "BeginTransaction")) id p,
      )

  -- A call that looks something up with one request: it hands on the request's error, gives nothing
  -- for a payload of null, and else what the payload is read as.
  abbrev pub LooksUp : {B : Type 0} → Value → (Value → Parsed B) → Call env (Option B) → Type 0
  LooksUp {B} request read call =
      (s : Session W S T)
      → let out = send env request s in
        ((e : Error) → out.0 ≡ err e → call s ≡ (err e, out.1))
        × ((r : Response)
            → out.0 ≡ ok r
            → r.kind ≡ codes "Json"
            → (r.data_value ≡ Value.null → call s ≡ (ok none, out.1))
              × ((b : B)
                  → r.data_value ≢ Value.null
                  → read r.data_value ≡ parsed b
                  → call s ≡ (ok (some b), out.1)))

  pub send_nullable-LooksUp :
      {B : Type 0} (request : Value) (read : Value → Parsed B) (what : Text)
      → LooksUp request read (send_nullable env read request what)
  unfolding send_nullable
  send_nullable-LooksUp {B} request read what s = (
    λ e h. >>=-of_err (send env request) _ s h,
    λ r h k.
        let w = (send env request s).1 in
        let seen = expect-kind r (codes "Json") what k in
        (
          λ d.
              >>=-of_ok (send env request) _ s h
              ∙ ap (λ x. (null_or (decode read r what) x, w)) (seen ∙ ap ok d)
              ∙ ap (λ x. (x, w)) (null_or-null (decode read r what)),
          λ b d p.
              >>=-of_ok (send env request) _ s h
              ∙ ap (λ x. (null_or (decode read r what) x, w)) seen
              ∙ ap (λ x. (null_or x (ok r.data_value), w)) (decode-parsed read r what b k p)
              ∙ ap (λ x. (x, w)) (null_or-some b r.data_value d),
        ),
  )
