-- ===== src/Client/Connecting/Fresh.antt =====
-- What a connection that went through is like.
use tricoredb_sdk_rust.Act.{lift, >>=-eq-ok, ◌>>=◌}
use tricoredb_sdk_rust.Address.{join_address}
use tricoredb_sdk_rust.Common.{
  ℕ, ◌≡◌, refl, sym, ap, ◌∙◌, subst, inl, inr, Bool, true, false, [], Option, none, some, Text,
  unwrap_or, if◌then◌else◌,
}
use tricoredb_sdk_rust.Environment.{
  Environment, Transport, HelloOk, AuthOk, dial, set_transport_read_timeout,
  set_transport_write_timeout,
}
use tricoredb_sdk_rust.Failure.{Result, ok, err, ok-ne-err, ok-injective}
use tricoredb_sdk_rust.Options.{Options, Duration, announced_features}
use tricoredb_sdk_rust.Client.{Client, Session, Call, on_world, set_read_timeout}
use tricoredb_sdk_rust.Client.Poison.{Exchanged, exchange-Exchanged}
use tricoredb_sdk_rust.Client.Replies.Outcomes.{check_reply-Exchanged}
use tricoredb_sdk_rust.Client.Prefix.{next_connection_prefix}
use tricoredb_sdk_rust.Client.Connecting.{
  hello, auth, log_in, handshake, greeted, admitted, new_client, settled, shake_hands, secured,
  connect,
}

-- A client that can be used: it has no fault, is not closed, is in no transaction, and has the
-- options, the database and the address of its options.
pub record IsFresh {S T : Type 0} (o : Options) (c : Client S T) : Type 0 where
  pub faultless : c.fault ≡ none
  pub alive : c.closed ≡ false
  pub outside : c.txn_open ≡ false
  pub configured : c.options ≡ o
  pub databased : c.database ≡ o.database
  pub addressed : c.address ≡ join_address o.host o.port

module _ {W A S T : Type 0} (env : Environment W A S T) (o : Options) where
  -- An action that succeeds leaves a fresh client fresh.
  abbrev Keeps : {B : Type 0} → Call env B → Type 0
  Keeps {B} m =
      (s : Session W S T) (b : B) → IsFresh o s.client → (m s).0 ≡ ok b → IsFresh o (m s).1.client

  Keeps-bind :
      {B C : Type 0} (m : Call env B) (f : B → Call env C)
      → Keeps m
      → ((b : B) → Keeps (f b))
      → Keeps (m >>= f)
  Keeps-bind m f hm hf s c fresh h =
      let (b, e, p) = >>=-eq-ok m f s h in
      subst (λ x. IsFresh o x.1.client) (sym p)
        (hf b (m s).1 c (hm s b fresh e) (sym (ap (λ x. x.0) p) ∙ h))

  Keeps-Exchanged :
      {B : Type 0} (m : Call env B) → ((s : Session W S T) → Exchanged s (m s)) → Keeps m
  Keeps-Exchanged m all_exchanged s b fresh h = go (all_exchanged s)
    where
      go : Exchanged s (m s) → IsFresh o (m s).1.client
      go (inl (x, w, e)) = subst (λ y. IsFresh o y.1.client) (sym e) fresh
      go (inr (inl (x, w, e))) = subst (λ y. IsFresh o y.1.client) (sym e) fresh
      go (inr (inr (x, w, u, n, e))) = absurd (ok-ne-err (sym h ∙ ap (λ y. y.0) e))

  Keeps-lift : {B : Type 0} (r : Result B) → Keeps (lift r)
  Keeps-lift r s b fresh h = fresh

  regranted : (c : Client S T) (n : ℕ) → IsFresh o c → IsFresh o (record c { granted_features = n })
  regranted c n h = record {
    faultless = h.faultless;
    alive = h.alive;
    outside = h.outside;
    configured = h.configured;
    databased = h.databased;
    addressed = h.addressed;
  }

  named :
      (c : Client S T) (id : Option Text) → IsFresh o c → IsFresh o (record c { session_id = id })
  named c id h = record {
    faultless = h.faultless;
    alive = h.alive;
    outside = h.outside;
    configured = h.configured;
    databased = h.databased;
    addressed = h.addressed;
  }

  timed :
      (c : Client S T) (t : Option Duration)
      → IsFresh o c
      → IsFresh o (record c { read_timeout = t })
  timed c t h = record {
    faultless = h.faultless;
    alive = h.alive;
    outside = h.outside;
    configured = h.configured;
    databased = h.databased;
    addressed = h.addressed;
  }

  -- Either outcome of a test leaves the client fresh.
  either :
      (b : Bool) (x y : Result (Unit {0}) × Session W S T)
      → IsFresh o x.1.client
      → IsFresh o y.1.client
      → IsFresh o (if b then x else y).1.client
  either true x y hx hy = hx
  either false x y hx hy = hy

  Keeps-greeted : (body : HelloOk) → Keeps (greeted env body)
  unfolding greeted
  Keeps-greeted body s b fresh h = either body.ok _ _ (regranted s.client body.features fresh) fresh

  Keeps-admitted : (body : AuthOk) → Keeps (admitted env body)
  unfolding admitted
  Keeps-admitted body s b fresh h = either body.ok _ _ (named s.client body.session_id fresh) fresh

  Keeps-hello : (client_name : Text) (features : ℕ) → Keeps (hello env client_name features)
  unfolding hello
  Keeps-hello client_name features =
      Keeps-bind _ _ (Keeps-Exchanged _ (exchange-Exchanged env _ _)) λ frame.
        Keeps-bind _ _ (Keeps-Exchanged _ (check_reply-Exchanged env _ _ _ frame))
          λ u. Keeps-bind _ _ (Keeps-lift _) Keeps-greeted

  Keeps-auth : (user secret : Text) → Keeps (auth env user secret)
  unfolding auth
  Keeps-auth user secret = Keeps-bind _ _ (Keeps-Exchanged _ (exchange-Exchanged env _ _)) λ frame.
      Keeps-bind _ _ (Keeps-Exchanged _ (check_reply-Exchanged env _ _ _ frame))
        λ u. Keeps-bind _ _ (Keeps-lift _) Keeps-admitted

  Keeps-log_in : (user secret : Option Text) → Keeps (log_in env user secret)
  unfolding log_in
  Keeps-log_in none secret = λ s b fresh h. fresh
  Keeps-log_in (some user) secret = Keeps-auth user (unwrap_or secret [])

  Keeps-set_read_timeout : (t : Option Duration) → Keeps (set_read_timeout env t)
  unfolding set_read_timeout
  Keeps-set_read_timeout t s b fresh h = timed s.client _ fresh

  Keeps-handshake : Keeps (handshake env o)
  unfolding handshake
  Keeps-handshake =
      let reading : Call env (Unit {0}) =
        on_world env (λ t. set_transport_read_timeout env t o.connect_timeout) in
      let writing : Call env (Unit {0}) =
        on_world env (λ t. set_transport_write_timeout env t o.connect_timeout) in
      let unbounded : Call env (Unit {0}) =
        on_world env (λ t. set_transport_write_timeout env t none) in
      let last : Call env (Unit {0}) = unbounded >>= λ u. set_read_timeout env o.read_timeout in
      let named_in : Call env (Unit {0}) = log_in env o.user o.secret >>= λ u. last in
      let greeting : Call env (Unit {0}) =
        hello env o.client_name (announced_features o) >>= λ u. named_in in
      Keeps-bind reading (λ u. writing >>= λ v. greeting) (λ s b fresh h. fresh)
        λ u.
          Keeps-bind writing (λ v. greeting) (λ s b fresh h. fresh)
            λ v.
              Keeps-bind (hello env o.client_name (announced_features o)) (λ u. named_in)
                (Keeps-hello o.client_name (announced_features o))
                λ w.
                  Keeps-bind (log_in env o.user o.secret) (λ u. last) (Keeps-log_in o.user o.secret)
                    λ x.
                      Keeps-bind unbounded (λ u. set_read_timeout env o.read_timeout)
                        (λ s b fresh h. fresh) λ y. Keeps-set_read_timeout o.read_timeout

  new_client-IsFresh :
      (transport : Transport S T) (prefix : Text) → IsFresh o (new_client env o transport prefix)
  unfolding new_client
  new_client-IsFresh transport prefix = record {
    faultless = refl;
    alive = refl;
    outside = refl;
    configured = refl;
    databased = refl;
    addressed = refl;
  }

  shake_hands-IsFresh :
      (transport : Transport S T) (w : W) (c : Client S T)
      → (shake_hands env o transport w).0 ≡ ok c
      → IsFresh o c
  unfolding shake_hands
  shake_hands-IsFresh transport w c h = go (handshake env o start).0 refl h
    where
      start : Session W S T
      start = record {
        client = new_client env o transport (next_connection_prefix env w).0;
        world = (next_connection_prefix env w).1;
      }

      go :
          (r : Result (Unit {0}))
          → (handshake env o start).0 ≡ r
          → (settled env r (handshake env o start).1).0 ≡ ok c
          → IsFresh o c
      go (ok u) e p = subst (IsFresh o) (ok-injective p) (
          Keeps-handshake start u (new_client-IsFresh transport (next_connection_prefix env w).0) e)
      go (err e) q p = absurd (ok-ne-err (sym p))

  -- A client that `connect` returns can be used: it has no fault, is not closed, is in no
  -- transaction, and has the options, the database and the address that were asked for.
  pub connect-IsFresh : (w : W) (c : Client S T) → (connect env o w).0 ≡ ok c → IsFresh o c
  unfolding connect
  connect-IsFresh w c h =
      let (stream, e1, p1) = >>=-eq-ok (dial env o.host o.port o.connect_timeout) _ w h in
      let w1 = (dial env o.host o.port o.connect_timeout w).1 in
      let (transport, e2, p2) =
        >>=-eq-ok (secured env o.tls o.connect_timeout stream) _ w1 (sym (ap (λ x. x.0) p1) ∙ h) in
      shake_hands-IsFresh transport (secured env o.tls o.connect_timeout stream w1).1 c
        (sym (ap (λ x. x.0) p2) ∙ sym (ap (λ x. x.0) p1) ∙ h)
