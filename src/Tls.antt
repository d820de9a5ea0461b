-- ===== src/Tls.antt =====
-- tls.rs: how a TLS stream is set up. rustls, its PEM files and its handshake are parameters.
pub mod Trust
pub mod Handshake
mod Tests
use tricoredb_sdk_rust.Act.{Act, lift, raise, pure, ◌>>=◌, ◌>>◌}
use tricoredb_sdk_rust.Common.{
  ℕ, zero, suc, Bool, true, false, List, [], ◌∷◌, ◌++◌, Option, none, some, Text, codes, is_empty,
  unwrap_or, if◌then◌else◌,
}
use tricoredb_sdk_rust.Environment.{Transport}
use tricoredb_sdk_rust.Failure.{Error, ErrorKind, Result, ok, err, new_error, invalid}
use tricoredb_sdk_rust.Options.{TlsOptions}

-- What a call of rustls gives: a value, or its complaint.
pub data Answer (A : Type 0) : Type 0 where
  granted : A → Answer A
  refused : Text → Answer A

-- Whom a connection trusts: any server, or those that a store of roots vouches for.
pub data Verifier (R : Type 0) : Type 0 where
  any_server : Verifier R
  rooted : R → Verifier R

-- rustls on a world `W`, with sockets `S`, streams `T`, certificates `C`, keys `K`, stores of roots
-- `R`, configurations `G`, server names `N` and connections `X`.
pub record Rustls (W S T C K R G N X : Type 0) : Type 0 where
  pub safe_versions : Answer (Unit {0})
  pub empty_roots : R
  pub add_root : R → C → Answer R
  pub pem_file_iter : Text → W → Answer (List C) × W
  pub pem_key_file : Text → W → Answer K × W
  pub with_client_auth_cert : Verifier R → List C → K → Answer G
  pub with_no_client_auth : Verifier R → G
  pub server_name_of : Text → Answer N
  pub new_connection : G → N → Answer X
  pub stream_of : X → S → T
  pub is_handshaking : T → Bool
  pub complete_io : T → W → Answer T × W
  -- a bound on the rounds of a handshake that is under way
  pub rounds_left : T → ℕ

abbrev pub tls_error : Text → Error
tls_error message = new_error ErrorKind.tls message

-- `map_err` of an answer, with the text that stands before the complaint.
abbrev pub or_tls : {A : Type 0} → Text → Answer A → Result A
or_tls what (granted a) = ok a
or_tls what (refused e) = err (tls_error (what ++ e))

-- Not returned while each round that succeeds lowers the bound: `Handshake` proves it.
pub out_of_rounds : Error
out_of_rounds = tls_error []

abbrev needs_key : Error
needs_key =
    invalid (codes "client_key_file is required alongside client_cert_file (mutual TLS needs both)")

abbrev needs_cert : Error
needs_cert =
    invalid (codes "client_cert_file is required alongside client_key_file (mutual TLS needs both)")

abbrev pub file_named : Text → Text → Text
file_named what path = what ++ (path ++ codes ": ")

module _ {W S T C K R G N X : Type 0} (rustls : Rustls W S T C K R G N X) where
  load_certs : Text → Act W (List C)
  load_certs path w = (
    or_tls (file_named (codes "certificate file ") path) (rustls.pem_file_iter path w).0,
    (rustls.pem_file_iter path w).1,
  )

  load_key : Text → Act W K
  load_key path w = (
    or_tls (file_named (codes "private key file ") path) (rustls.pem_key_file path w).0,
    (rustls.pem_key_file path w).1,
  )

  -- The loop over the certificates of a CA file.
  add_after : Text → (R → Result R) → Answer R → Result R
  add_after path next (granted roots) = next roots
  add_after path next (refused e) = err (tls_error (file_named (codes "CA file ") path ++ e))

  add_all : Text → List C → R → Result R
  unfolding add_after
  add_all path [] roots = ok roots
  add_all path (c ∷ cs) roots = add_after path (add_all path cs) (rustls.add_root roots c)

  no_certificates : Text → Error
  no_certificates path =
      tls_error (codes "CA file " ++ (path ++ codes " holds no PEM certificates"))

  root_store : Option Text → Act W R
  unfolding load_certs add_all no_certificates
  root_store none = pure rustls.empty_roots
  root_store (some path) = do
    certs ← load_certs path
    lift (
        if is_empty certs
        then err (no_certificates path)
        else add_all path certs rustls.empty_roots)

  rooted_stage : Option Text → Act W (Verifier R)
  unfolding root_store
  rooted_stage ca_file = do roots ← root_store ca_file; pure (rooted roots)

  pub verifier_stage : TlsOptions → Act W (Verifier R)
  unfolding rooted_stage
  verifier_stage o =
      if o.danger_accept_invalid_certs then pure any_server else rooted_stage o.ca_file

  -- The client's own certificate needs its key, and the key its certificate.
  client_auth : Verifier R → Option Text → Option Text → Act W G
  unfolding load_certs load_key
  client_auth v none none = pure (rustls.with_no_client_auth v)
  client_auth v (some cert) none = raise needs_key
  client_auth v none (some key) = raise needs_cert
  client_auth v (some cert) (some key) = do
    chain ← load_certs cert
    k ← load_key key
    lift (
        or_tls
          (codes "client certificate " ++ (cert ++ (codes " with key " ++ (key ++ codes ": "))))
          (rustls.with_client_auth_cert v chain k))

  pub configured : TlsOptions → Act W G
  unfolding verifier_stage client_auth
  configured o = do
    lift (or_tls (codes "cannot configure TLS: ") rustls.safe_versions)
    v ← verifier_stage o
    client_auth v o.client_cert_file o.client_key_file

  -- The loop of the handshake, on rounds.
  shake_after : (T → Act W T) → Text → Answer T × W → Result T × W
  shake_after next name (granted t, w) = next t w
  shake_after next name (refused e, w) =
      (err (tls_error (codes "TLS handshake with `" ++ (name ++ (codes "` failed: " ++ e)))), w)

  shake : ℕ → Text → T → Act W T
  unfolding shake_after
  shake zero name t w = if rustls.is_handshaking t then (err out_of_rounds, w) else (ok t, w)
  shake (suc n) name t w =
      if rustls.is_handshaking t
      then shake_after (shake n name) name (rustls.complete_io t w)
      else (ok t, w)

  pub handshake : Text → T → Act W T
  unfolding shake
  handshake name t = shake (suc (rustls.rounds_left t)) name t

  pub wrap : S → TlsOptions → Act W (Transport S T)
  unfolding configured handshake
  wrap tcp o = do
    config ← configured o
    let name = unwrap_or o.server_name (codes "localhost")
    server ← lift (
        or_tls (codes "`" ++ (name ++ codes "` is not a valid server name: "))
          (rustls.server_name_of name))
    x ← lift (
        or_tls (codes "cannot start a TLS session with `" ++ (name ++ codes "`: "))
          (rustls.new_connection config server))
    t ← handshake name (rustls.stream_of x tcp)
    pure (Transport.tls t)
