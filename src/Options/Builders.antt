-- ===== src/Options/Builders.antt =====
-- options.rs: the methods that build options, each of which sets what it names.
use tricoredb_sdk_rust.Common.{ℕ, Bool, false, none, some, Text}
use tricoredb_sdk_rust.Options.{Duration, TlsOptions, Options, default_options}

new_tls : TlsOptions
new_tls = record {
  ca_file = none;
  server_name = none;
  danger_accept_invalid_certs = false;
  client_cert_file = none;
  client_key_file = none;
}

with_ca_file : Text → TlsOptions → TlsOptions
with_ca_file path o = record o { ca_file = some path }

with_server_name : Text → TlsOptions → TlsOptions
with_server_name name o = record o { server_name = some name }

-- A certificate and its key are named together.
client_identity : Text → Text → TlsOptions → TlsOptions
client_identity cert_file key_file o = record o {
  client_cert_file = some cert_file;
  client_key_file = some key_file;
}

accept_invalid_certs : Bool → TlsOptions → TlsOptions
accept_invalid_certs accepted o = record o { danger_accept_invalid_certs = accepted }

-- `Options::new`; the crate's version is in the name of the client.
new_options : Text → Text → ℕ → Options
new_options crate_name host port = record (default_options crate_name) { host = host; port = port }

with_user : Text → Options → Options
with_user user o = record o { user = some user }

with_secret : Text → Options → Options
with_secret secret o = record o { secret = some secret }

with_database : Text → Options → Options
with_database database o = record o { database = database }

with_client_name : Text → Options → Options
with_client_name name o = record o { client_name = name }

with_connect_timeout : Duration → Options → Options
with_connect_timeout timeout o = record o { connect_timeout = some timeout }

with_read_timeout : Duration → Options → Options
with_read_timeout timeout o = record o { read_timeout = some timeout }

with_tls : TlsOptions → Options → Options
with_tls tls o = record o { tls = some tls }

with_features : ℕ → Options → Options
with_features features o = record o { features = some features }

with_follow_leader : Bool → Options → Options
with_follow_leader follow o = record o { follow_leader = follow }

with_leader_retries : ℕ → Options → Options
with_leader_retries retries o = record o { leader_retries = retries }

with_leader_retry_delay : Duration → Options → Options
with_leader_retry_delay delay o = record o { leader_retry_delay = delay }
