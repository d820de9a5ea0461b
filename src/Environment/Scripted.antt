-- ===== src/Environment/Scripted.antt =====
-- A world for tests: a server whose answers are a list of bytes that is fixed in advance.
use tricoredb_sdk_rust.Common.{
  ℕ, List, [], ◌∷◌, true, none, codes, ltb, length, take, drop, if◌then◌else◌,
}
use tricoredb_sdk_rust.Failure.{IoError, IoErrorKind, IoResult, done, failed, ok}
use tricoredb_sdk_rust.Json.{num, tagged}
use tricoredb_sdk_rust.Response.{Parsed, parsed, malformed}
use tricoredb_sdk_rust.Environment.{Environment, tcp, WireResponse}

abbrev pub end_of_file : IoError
end_of_file = record { io_kind = IoErrorKind.unexpected_eof; text = [] }

-- `read_exact` on the bytes to come.
abbrev pub read_script : ℕ → List ℕ → IoResult (List ℕ) × List ℕ
read_script n bytes =
    if ltb (length bytes) n then (failed end_of_file, []) else (done (take n bytes), drop n bytes)

-- A reply's body is one byte: the JSON data of a success.
abbrev pub scripted_response : List ℕ → Parsed WireResponse
scripted_response [] = malformed (codes "empty")
scripted_response (k ∷ rest) = parsed (record {
  request_id = [];
  status = codes "ok";
  data_value = tagged (codes "Json") (num k);
  diagnostics = none;
})

abbrev pub scripted : Environment (List ℕ) (Unit {0}) (Unit {0}) (Unit {0})
scripted = record {
  to_socket_addrs = λ host port w. (done (tt ∷ []), w);
  connect_tcp = λ a timeout w. (done tt, w);
  set_nodelay = λ s w. w;
  set_read_timeout = λ s timeout w. (done tt, w);
  set_write_timeout = λ s timeout w. (done tt, w);
  shutdown = λ s w. w;
  read_exact = λ t. read_script;
  write_all = λ t bytes w. (done tt, w);
  flush = λ t w. (done tt, w);
  sleep = λ d w. w;
  process_id = λ w. 1;
  since_epoch = λ w. (none, w);
  fetch_sequence = λ w. (0, w);
  get_ref = λ t. tt;
  wrap = λ s o w. (ok (tcp tt), w);
  to_vec = λ v. parsed [];
  to_string = λ v. [];
  from_slice = λ bytes. malformed (codes "not JSON");
  hello_ok_body = λ bytes. parsed (record { ok = true; message = []; features = 7 });
  auth_ok_body = λ bytes. parsed (record { ok = true; session_id = none; message = [] });
  response_body = scripted_response;
  cancel_ok_body = λ bytes. parsed 1;
  from_utf8_lossy = λ bytes. bytes;
}
