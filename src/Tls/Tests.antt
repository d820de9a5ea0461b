-- ===== src/Tls/Tests.antt =====
-- TLS set-up at concrete inputs: a handshake of two rounds, and a CA file with one certificate.
use tricoredb_sdk_rust.Common.{
  ℕ, ◌-◌, ltb, ◌≡◌, refl, false, List, [], ◌∷◌, none, some, Text, codes,
}
use tricoredb_sdk_rust.Environment.{Transport}
use tricoredb_sdk_rust.Failure.{ok}
use tricoredb_sdk_rust.Options.{TlsOptions}
use tricoredb_sdk_rust.Tls.{granted, Rustls, rooted, verifier_stage, configured, wrap}
use tricoredb_sdk_rust.Tls.Handshake.{Shakes}
use tricoredb_sdk_rust.Tls.Trust.{Holds, Identified, wrap-Holds}

-- A stream is the number of rounds to come.
abbrev two_rounds :
    Rustls (Unit {0}) (Unit {0}) ℕ Text (Unit {0}) (List Text) (Unit {0}) Text (Unit {0})
two_rounds = record {
  safe_versions = granted tt;
  empty_roots = [];
  add_root = λ roots c. granted (c ∷ roots);
  pem_file_iter = λ path w. (granted (codes "root" ∷ []), w);
  pem_key_file = λ path w. (granted tt, w);
  with_client_auth_cert = λ v chain k. granted tt;
  with_no_client_auth = λ v. tt;
  server_name_of = λ name. granted name;
  new_connection = λ g name. granted tt;
  stream_of = λ x s. 2;
  is_handshaking = λ t. ltb 0 t;
  complete_io = λ t w. (granted (t - 1), w);
  rounds_left = λ t. t;
}

abbrev with_ca : TlsOptions
with_ca = record {
  ca_file = some (codes "ca.pem");
  server_name = none;
  danger_accept_invalid_certs = false;
  client_cert_file = none;
  client_key_file = none;
}

connected : (wrap two_rounds tt with_ca tt).0 ≡ ok (Transport.tls 0)
unfolding wrap
connected = refl

wrap-Holds_example :
    (roots : List Text) × (g : Unit {0}) × (server : Text) × (x : Unit {0}) × (t : ℕ) × Holds
      two_rounds
      (some (codes "ca.pem"))
      tt
      roots
    × Identified two_rounds (rooted roots) none none (verifier_stage two_rounds with_ca tt).1 g
    × ((configured two_rounds with_ca tt).0 ≡ ok g)
    × (granted (codes "localhost") ≡ granted server)
    × (granted tt ≡ granted x)
    × Shakes two_rounds
        (codes "localhost")
        2
        (configured two_rounds with_ca tt).1
        (ok t)
        (wrap two_rounds tt with_ca tt).1
    × (ltb 0 t ≡ false)
    × (◌≡◌ {A = Transport (Unit {0}) ℕ} (Transport.tls 0) (Transport.tls t))
wrap-Holds_example = wrap-Holds two_rounds tt with_ca tt (Transport.tls 0) refl connected
