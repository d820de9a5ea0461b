-- ===== src/Tls/Trust.antt =====
-- Whom a TLS connection trusts, and by what it is known.
use tricoredb_sdk_rust.Act.{lift, pure, >>=-eq-ok}
use tricoredb_sdk_rust.Common.{
  ◌≡◌, refl, sym, ap, subst, ◌∙◌, Bool, true, false, List, [], ◌∷◌, Option, none, some, Text, codes,
  is_empty, if◌then◌else◌, unwrap_or,
}
use tricoredb_sdk_rust.Failure.{Error, Result, ok, err, ok-injective, ok-ne-err}
use tricoredb_sdk_rust.Environment.{Transport}
use tricoredb_sdk_rust.Options.{TlsOptions}
use tricoredb_sdk_rust.Tls.Handshake.{Shakes, handshake-of_ok}
use tricoredb_sdk_rust.Tls.{
  Answer, granted, refused, Verifier, any_server, rooted, Rustls, or_tls, load_certs, load_key,
  add_after, add_all, root_store, rooted_stage, verifier_stage, no_certificates, wrap, handshake,
  client_auth, configured,
}

module _ {W S T C K R G N X : Type 0} (rustls : Rustls W S T C K R G N X) where
  -- The roots after each certificate of a list was added, in order.
  abbrev pub Added : List C → R → R → Type 0
  Added [] roots after = roots ≡ after
  Added (c ∷ cs) roots after =
      (next : R) × (rustls.add_root roots c ≡ granted next) × Added cs next after

  -- What the store holds: nothing without a CA file, and else that file's certificates, of which
  -- there is at least one. The roots of the operating system are in neither.
  abbrev pub Holds : Option Text → W → R → Type 0
  Holds none w roots = roots ≡ rustls.empty_roots
  Holds (some path) w roots =
      (cs : List C) × ((rustls.pem_file_iter path w).0 ≡ granted cs)
      × (is_empty cs ≡ false)
      × Added cs rustls.empty_roots roots

  -- The client's own identity: none at all, or the certificates of a file with the key of another.
  abbrev pub Identified : Verifier R → Option Text → Option Text → W → G → Type 0
  Identified v none none w g = g ≡ rustls.with_no_client_auth v
  Identified v (some cert) (some key) w g =
      (chain : List C) × (k : K) × ((rustls.pem_file_iter cert w).0 ≡ granted chain)
      × ((rustls.pem_key_file key (rustls.pem_file_iter cert w).1).0 ≡ granted k)
      × (rustls.with_client_auth_cert v chain k ≡ granted g)
  Identified v (some cert) none w g = ⊥
  Identified v none (some key) w g = ⊥

  -- The name that the server is asked to prove.
  abbrev pub named : TlsOptions → Text
  named o = unwrap_or o.server_name (codes "localhost")

  or_tls-eq-ok :
      {A : Type 0} (what : Text) (a : Answer A) {x : A} → or_tls what a ≡ ok x → a ≡ granted x
  or_tls-eq-ok what (granted a) h = ap granted (ok-injective h)
  or_tls-eq-ok what (refused e) h = absurd (ok-ne-err (sym h))

  add_all-Added :
      (path : Text) (cs : List C) (roots : R) {after : R}
      → add_all rustls path cs roots ≡ ok after
      → Added cs roots after
  unfolding add_all add_after
  add_all-Added path [] roots h = ok-injective h
  add_all-Added path (c ∷ cs) roots {after} h =
      go (rustls.add_root roots c) (λ next. add_all-Added path cs next) h
    where
      go :
          (a : Answer R)
          → ((next : R) → add_all rustls path cs next ≡ ok after → Added cs next after)
          → add_after rustls path (add_all rustls path cs) a ≡ ok after
          → (next : R) × (a ≡ granted next) × Added cs next after
      go (granted next) rest q = (next, refl, rest next q)
      go (refused e) rest q = absurd (ok-ne-err (sym q))

  unless-err :
      {A : Type 0} (b : Bool) (e : Error) (r : Result A) {a : A}
      → (if b then err e else r) ≡ ok a
      → (b ≡ false) × (r ≡ ok a)
  unless-err true e r h = absurd (ok-ne-err (sym h))
  unless-err false e r h = (refl, h)

  root_store-Holds :
      (ca : Option Text) (w : W) {roots : R}
      → (root_store rustls ca w).0 ≡ ok roots
      → Holds ca w roots
  unfolding root_store load_certs
  root_store-Holds none w h = ok-injective (sym h)
  root_store-Holds (some path) w {roots} h =
      let (cs, p, q) = >>=-eq-ok (load_certs rustls path) _ w h in
      let (full, added) =
        unless-err (is_empty cs) (no_certificates rustls path)
          (add_all rustls path cs rustls.empty_roots)
          (sym (ap (λ (x : Result R × W). x.0) q) ∙ h) in
      (cs, or_tls-eq-ok _ _ p, full, add_all-Added path cs rustls.empty_roots added)

  rooted-Holds :
      (ca : Option Text) (w : W) {v : Verifier R}
      → (rooted_stage rustls ca w).0 ≡ ok v
      → (roots : R) × (v ≡ rooted roots) × Holds ca w roots
  unfolding rooted_stage
  rooted-Holds ca w {v} h =
      let (roots, p, q) = >>=-eq-ok (root_store rustls ca) _ w h in
      (
        roots,
        ok-injective (sym h ∙ ap (λ (x : Result (Verifier R) × W). x.0) q),
        root_store-Holds ca w p,
      )

  verifier_stage-Holds :
      (danger : Bool) (o : TlsOptions) (w : W) {v : Verifier R}
      → o.danger_accept_invalid_certs ≡ danger
      → danger ≡ false
      → (verifier_stage rustls o w).0 ≡ ok v
      → (roots : R) × (v ≡ rooted roots) × Holds o.ca_file w roots
  unfolding verifier_stage
  verifier_stage-Holds true o w d f h = cc
  verifier_stage-Holds false o w d f h =
      rooted-Holds o.ca_file w
        (sym (ap (λ b. ((if b then pure any_server else rooted_stage rustls o.ca_file) w).0) d) ∙ h)

  client_auth-Identified :
      (v : Verifier R) (cert key : Option Text) (w : W) {g : G}
      → (client_auth rustls v cert key w).0 ≡ ok g
      → Identified v cert key w g
  unfolding client_auth load_certs load_key
  client_auth-Identified v none none w h = ok-injective (sym h)
  client_auth-Identified v (some cert) none w h = ok-ne-err (sym h)
  client_auth-Identified v none (some key) w h = ok-ne-err (sym h)
  client_auth-Identified v (some cert) (some key) w {g} h =
      let (chain, p, q) = >>=-eq-ok (load_certs rustls cert) _ w h in
      let h2 = sym (ap (λ (x : Result G × W). x.0) q) ∙ h in
      let (k, p', q') = >>=-eq-ok (load_key rustls key) _ (load_certs rustls cert w).1 h2 in
      (
        chain,
        k,
        or_tls-eq-ok _ _ p,
        or_tls-eq-ok _ _ p',
        or_tls-eq-ok _ _ (sym (ap (λ (x : Result G × W). x.0) q') ∙ h2),
      )

  -- A configuration that is built without the dangerous option trusts a store of roots alone: an
  -- empty one without a CA file, and else exactly the certificates of that file, which has some. The
  -- client shows a certificate exactly if its file and its key's file are both named, and then what they
  -- hold.
  pub configured-Holds :
      (o : TlsOptions) (w : W) (g : G)
      → o.danger_accept_invalid_certs ≡ false
      → (configured rustls o w).0 ≡ ok g
      → (roots : R) × Holds o.ca_file w roots
        × Identified
            (rooted roots)
            o.client_cert_file
            o.client_key_file
            (verifier_stage rustls o w).1
            g
  unfolding configured
  configured-Holds o w g d h =
      let (u, p, q) =
        >>=-eq-ok (lift (or_tls (codes "cannot configure TLS: ") rustls.safe_versions)) _ w h in
      let h2 = sym (ap (λ (x : Result G × W). x.0) q) ∙ h in
      let (v, p', q') = >>=-eq-ok (verifier_stage rustls o) _ w h2 in
      let (roots, same, holds) = verifier_stage-Holds false o w d refl p' in
      (
        roots,
        holds,
        subst
            (λ x. Identified x o.client_cert_file o.client_key_file (verifier_stage rustls o w).1 g)
            same
            (client_auth-Identified v o.client_cert_file o.client_key_file
              (verifier_stage rustls o w).1 (sym (ap (λ (x : Result G × W). x.0) q') ∙ h2)),
      )

  -- A stream that TLS set-up returns without the dangerous option comes, by the rounds of its own
  -- handshake, which is over, from the session that was opened on the given socket, with the
  -- configuration of the options, for their server name, or else for localhost. That configuration
  -- trusts a store of roots alone: an empty one without a CA file, and else that file's certificates,
  -- of which there is at least one; and it shows no certificate, or that of the file that is named,
  -- with its key.
  pub wrap-Holds :
      (tcp : S) (o : TlsOptions) (w : W) (tr : Transport S T)
      → o.danger_accept_invalid_certs ≡ false
      → (wrap rustls tcp o w).0 ≡ ok tr
      → (roots : R) × (g : G) × (server : N) × (x : X) × (t : T) × Holds o.ca_file w roots
        × Identified
            (rooted roots)
            o.client_cert_file
            o.client_key_file
            (verifier_stage rustls o w).1
            g
        × ((configured rustls o w).0 ≡ ok g)
        × (rustls.server_name_of (named o) ≡ granted server)
        × (rustls.new_connection g server ≡ granted x)
        × Shakes rustls
            (named o)
            (rustls.stream_of x tcp)
            (configured rustls o w).1
            (ok t)
            (wrap rustls tcp o w).1
        × (rustls.is_handshaking t ≡ false)
        × (tr ≡ Transport.tls t)
  unfolding wrap
  wrap-Holds tcp o w tr d h =
      let (g, p, q) = >>=-eq-ok (configured rustls o) _ w h in
      let (roots, holds, known) = configured-Holds o w g d p in
      let h2 = sym (ap (λ (x : Result (Transport S T) × W). x.0) q) ∙ h in
      let w2 = (configured rustls o w).1 in
      let (server, p2, q2) =
        >>=-eq-ok (lift (or_tls _ (rustls.server_name_of (named o)))) _ w2 h2 in
      let h3 = sym (ap (λ (x : Result (Transport S T) × W). x.0) q2) ∙ h2 in
      let (x, p3, q3) = >>=-eq-ok (lift (or_tls _ (rustls.new_connection g server))) _ w2 h3 in
      let h4 = sym (ap (λ (x : Result (Transport S T) × W). x.0) q3) ∙ h3 in
      let (t, p4, q4) = >>=-eq-ok (handshake rustls (named o) (rustls.stream_of x tcp)) _ w2 h4 in
      let h5 = sym (ap (λ (x : Result (Transport S T) × W). x.0) q4) ∙ h4 in
      let (run, over) = handshake-of_ok rustls (named o) (rustls.stream_of x tcp) w2 p4 in
      let last = ap (λ (x : Result (Transport S T) × W). x.1) (q ∙ q2 ∙ q3 ∙ q4) in
      (
        roots,
        g,
        server,
        x,
        t,
        holds,
        known,
        p,
        or_tls-eq-ok _ _ p2,
        or_tls-eq-ok _ _ p3,
        subst (Shakes rustls (named o) (rustls.stream_of x tcp) w2 (ok t)) (sym last) run,
        over,
        sym (ok-injective h5),
      )
