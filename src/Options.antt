-- ===== src/Options.antt =====
-- options.rs: what a connection is configured with. A `Duration` is its nanoseconds.
pub mod Builders
use Prim.Native.Nat.{bit_and, bit_or}
use tricoredb_sdk_rust.Common.{
  ℕ, ◌*◌, ◌^◌, Bool, true, not, Option, none, Text, codes, ◌==◌, unwrap_or,
}

abbrev pub Duration : Type 0
Duration = ℕ

abbrev pub from_millis : ℕ → Duration
from_millis ms = ms * 1000000

abbrev pub from_secs : ℕ → Duration
from_secs s = s * 1000000000

abbrev pub default_port : ℕ
default_port = 8427

abbrev pub default_database : Text
default_database = codes "main"

abbrev pub feature_correlation_id : ℕ
feature_correlation_id = 2 ^ 0

abbrev pub feature_server_params : ℕ
feature_server_params = 2 ^ 1

abbrev pub feature_session_txn : ℕ
feature_session_txn = 2 ^ 2

abbrev pub all_features : ℕ
all_features = bit_or (bit_or feature_correlation_id feature_server_params) feature_session_txn

-- `features & bit != 0`.
unfoldable pub has_feature : ℕ → ℕ → Bool
has_feature features bit = not (bit_and features bit == 0)

pub record TlsOptions : Type 0 where
  pub ca_file : Option Text
  pub server_name : Option Text
  pub danger_accept_invalid_certs : Bool
  pub client_cert_file : Option Text
  pub client_key_file : Option Text

pub record Options : Type 0 where
  pub host : Text
  pub port : ℕ
  pub user : Option Text
  pub secret : Option Text
  pub database : Text
  pub client_name : Text
  pub connect_timeout : Option Duration
  pub read_timeout : Option Duration
  pub tls : Option TlsOptions
  pub features : Option ℕ
  pub follow_leader : Bool
  pub leader_retries : ℕ
  pub leader_retry_delay : Duration

-- `Options::default`; the crate's version comes from the build.
unfoldable pub default_options : Text → Options
default_options client_name = record {
  host = codes "127.0.0.1";
  port = default_port;
  user = none;
  secret = none;
  database = default_database;
  client_name = client_name;
  connect_timeout = none;
  read_timeout = none;
  tls = none;
  features = none;
  follow_leader = true;
  leader_retries = 5;
  leader_retry_delay = from_millis 250;
}

unfoldable pub announced_features : Options → ℕ
announced_features o = unwrap_or o.features all_features
