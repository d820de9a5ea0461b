-- ===== src/Client/Poison.antt =====
-- What an exchange of frames does to a client: nothing, or it poisons it for good.
pub mod Cases
use tricoredb_sdk_rust.Act.{lift, continue, ◌>>=◌}
use tricoredb_sdk_rust.Common.{
  ◌≡◌, ◌⊎◌, refl, sym, subst, inl, inr, Bool, true, false, Option, none, some,
}
use tricoredb_sdk_rust.Environment.{Environment, shutdown_transport}
use tricoredb_sdk_rust.Failure.{Error, Result, ok, err}
use tricoredb_sdk_rust.Frame.{Tag, encode}
use tricoredb_sdk_rust.Frame.Faults.{NoCode, write_frame-NoCode, read_frame-NoCode}
use tricoredb_sdk_rust.Json.{Value}
use tricoredb_sdk_rust.Client.{
  Session, Call, exchange, exchange_as, exchange_open, send_frame, receive_frame, or_poison,
  or_poison_from, poison, poisoned, body_of, dropped_error, closed_error,
}

module _ {W S T : Type 0} where
  -- The session after `e` has poisoned a client that had no fault.
  abbrev pub broken : Session W S T → Error → W → Session W S T
  broken s e w = record { client = record s.client { txn_open = false; fault = some e }; world = w }

  -- The three ways in which a call may leave the client.
  abbrev pub Exchanged : {B : Type 0} → Session W S T → Result B × Session W S T → Type 0
  Exchanged {B} s out =
      ((b : B) × (w : W) × (out ≡ (ok b, record s { world = w })))
      ⊎ ((e : Error) × (w : W) × (out ≡ (err e, record s { world = w })))
      ⊎ ((e : Error) × (w : W) × (s.client.fault ≡ none)
          × (e.code ≡ none)
          × (out ≡ (err e, broken s e w)))

module _ {W A S T : Type 0} (env : Environment W A S T) where
  -- An exchange on a client that was poisoned, or closed, fails at once: nothing is sent or read, and
  -- the error says so, with the message of the fault in the first case.
  pub exchange-unusable :
      (tag : Tag) (payload : Option Value) (s : Session W S T)
      → ((f : Error)
          → s.client.fault ≡ some f
          → exchange env tag payload s ≡ (err (dropped_error env f), s))
        × (s.client.fault ≡ none
            → s.client.closed ≡ true
            → exchange env tag payload s ≡ (err (closed_error env), s))
  unfolding exchange exchange_as
  exchange-unusable tag payload s = (λ f e. rw e refl, λ e c. rw e (rw c refl))

  or_poison_from-Exchanged :
      {B : Type 0} (r : Result B) (w : W) (s : Session W S T)
      → s.client.fault ≡ none
      → ((e : Error) → r ≡ err e → NoCode e)
      → Exchanged s (or_poison_from env r (record s { world = w }))
  unfolding or_poison_from poison poisoned
  or_poison_from-Exchanged (ok b) w s f h = inl (b, w, refl)
  or_poison_from-Exchanged {B} (err e) w s f h =
      inr (inr (e, shutdown_transport env s.client.transport w, f, h e refl, poisoned_eq))
    where
      poisoned_eq :
          ◌≡◌ {A = Result B × Session W S T}
            (err e, poisoned env s.client.fault e (record s { world = w }))
            (err e, broken s e (shutdown_transport env s.client.transport w))
      poisoned_eq = rw f refl

  -- The outcome of a bind, from those of its parts.
  pub Exchanged-bind :
      {B C : Type 0} (m : Call env B) (f : B → Call env C) (s : Session W S T)
      → Exchanged s (m s)
      → ((b : B) (w : W) → Exchanged (record s { world = w }) (f b (record s { world = w })))
      → Exchanged s ((m >>= f) s)
  Exchanged-bind m f s (inl (b, w, e)) h =
      subst (λ out. Exchanged s (continue out.0 f out.1)) (sym e) (h b w)
  Exchanged-bind m f s (inr (inl (x, w, e))) h =
      subst (λ out. Exchanged s (continue out.0 f out.1)) (sym e) (inr (inl (x, w, refl)))
  Exchanged-bind m f s (inr (inr (x, w, u, n, e))) h =
      subst (λ out. Exchanged s (continue out.0 f out.1)) (sym e) (inr (inr (x, w, u, n, refl)))

  pub Exchanged-lift : {B : Type 0} (r : Result B) (s : Session W S T) → Exchanged s (lift r s)
  Exchanged-lift (ok b) s = inl (b, s.world, refl)
  Exchanged-lift (err e) s = inr (inl (e, s.world, refl))

  exchange_open-Exchanged :
      (tag : Tag) (payload : Option Value) (s : Session W S T)
      → s.client.fault ≡ none
      → Exchanged s (exchange_open env tag payload s)
  unfolding exchange_open send_frame receive_frame
  exchange_open-Exchanged tag payload s f =
      Exchanged-bind (lift (body_of env payload)) _ s (Exchanged-lift _ s) λ body w.
        Exchanged-bind (lift (encode tag body)) _ _ (Exchanged-lift _ _) λ bytes w'.
          Exchanged-bind (or_poison env (send_frame env tag body)) _ (record s { world = w' })
            (or_poison_from-Exchanged _ _ (record s { world = w' }) f
              (write_frame-NoCode (env.write_all s.client.transport) (env.flush s.client.transport)
                tag body w'))
            λ u w''.
              or_poison_from-Exchanged _ _ (record s { world = w'' }) f
                (read_frame-NoCode (env.read_exact s.client.transport) w'')

  -- An exchange of frames leaves the client as it was, with an answer or with an error, or it
  -- poisons a client that had no fault: then the transaction is over and the error is the fault.
  pub exchange-Exchanged :
      (tag : Tag) (payload : Option Value) (s : Session W S T)
      → Exchanged s (exchange env tag payload s)
  unfolding exchange
  exchange-Exchanged tag payload s = go s.client.fault s.client.closed refl
    where
      go :
          (fault : Option Error) (closed : Bool)
          → s.client.fault ≡ fault
          → Exchanged s (exchange_as env fault closed tag payload s)
      go (some f) c e = inr (inl (dropped_error env f, s.world, refl))
      go none true e = inr (inl (closed_error env, s.world, refl))
      go none false e = exchange_open-Exchanged tag payload s e

  pub poison-Exchanged :
      {B : Type 0} (e : Error) (s : Session W S T) → NoCode e → Exchanged {B = B} s (poison env e s)
  unfolding poison poisoned
  poison-Exchanged {B} e s n = go s.client.fault refl
    where
      go :
          (fault : Option Error)
          → s.client.fault ≡ fault
          → Exchanged {B = B} s (err e, poisoned env fault e s)
      go (some f) p = inr (inl (e, s.world, refl))
      go none p = inr (inr (e, shutdown_transport env s.client.transport s.world, p, n, refl))
