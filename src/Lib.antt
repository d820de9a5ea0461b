-- ===== src/Lib.antt =====
-- A verification library of tricoredb-sdk-rust, the blocking Rust client of the tricoredb server.
--
-- The program. A `Client` (src/client.rs) owns one connection: a TCP or TLS stream
-- (src/transport.rs, src/tls.rs) on which frames (src/frame.rs) go out and come back in turn. A frame
-- carries JSON, in which byte strings are arrays of small numbers (src/wire.rs). The client opens the
-- connection with a handshake (src/options.rs), sends requests and unwraps their replies
-- (src/response.rs), sends a request that a follower refused to the leader, and poisons itself as soon
-- as requests and replies may be out of step. Above it stand statements, parameters and transactions
-- (src/sql.rs, src/params.rs), the operations on the cache (src/cache.rs), on documents
-- (src/document.rs), graphs (src/graph.rs) and vectors (src/vector.rs), exports for language models
-- (src/llm.rs), and a `Pool` (src/pool.rs) that lends connections to threads. Every failure is one
-- `Error` (src/error.rs).
--
-- The files, by the code that they model:
--   Failure            src/error.rs; `Result` with its binds; Display has the printed form
--   Json               the values of serde_json that the client builds and matches on; Maps has how a
--                      body is filled
--   Wire               src/wire.rs; RoundTrip has the proofs
--   Frame              src/frame.rs; Tags, Faults and Reading have the proofs
--   Response, Options  src/response.rs, src/options.rs
--   Params             src/params.rs; Decimal has the grammar of decimals, Conversions what converts
--                      into a parameter
--   SerdeNull          src/serde_null.rs
--   Address            `split_address` and `join_address` of src/client.rs; RoundTrip has the proofs
--   Environment        the record of what the client calls and does not implement (sockets, rustls, the
--                      clock, serde_json's parsing and printing), and src/transport.rs over it
--   Client             src/client.rs: the struct and `exchange` (Client), `connect` (Connecting),
--                      the prefix of request ids (Prefix),
--                      `ping`, `cancel` and the reading of replies (Replies), `send` and the following of
--                      the leader (Sending), `close` and drop (Closing); Sending/Requests has what the typed
--                      operations do around one request
--   Sql                src/sql.rs: statements and session transactions (Sql, Transactions, Depth),
--                      scripts
--                      (Script, Whole), rows as maps (Table)
--   Cache              src/cache.rs: the bodies of the operations and the reading of replies (Cache),
--                      pairs and entries as text (Entries),
--                      `decode_hex` (Hex), the operations on values, lists, sets, hashes and streams
--                      (Calls, Members), sorted sets and locks (Sorted, Locks), bits, sets and
--                      blocking pops (Structures), stale values (Fresh), batches (Batches),
--                      channels (Channels); Readings has the proofs on replies
--   Document           src/document.rs: filters and stages (Stages), updates and bulk operations
--                      (Updates), settings and reports, and the operations (Collections, Reads, Writes,
--                      Transactions)
--   Graph              src/graph.rs: nodes and edges (Elements, Calls), walks and paths (Walks), analyses
--                      (Analysis, Reports), indexes and constraints (SchemaObjects), Cypher and
--                      transactions (Transactions)
--   Vector             src/vector.rs: the operations on collections, points and searches
--   Llm                src/llm.rs
--   Tls                src/tls.rs over a record of what it calls of rustls; Trust and Handshake have the
--                      proofs
--   Explicit, Lookups, Refusals
--                      what several of these modules promise alike: explicit transactions, lookups that
--                      may find nothing, and requests that are refused before anything is sent
--   Pool               src/pool.rs: the critical sections (Pool), their interleavings (Steps,
--                      Invariant), and `run` around the closure (Run)
--   Common, Act        shared helpers; `Act` is the monad of a state with failures, in which what was
--                      changed before a failure stays changed
-- The files named Tests, Fixtures and Scripted hold concrete inputs.
--
-- Conventions. Numbers are native and unbounded; where the code has a fixed width, the bound is written
-- out (`as u32` and `as u8` as remainders, the ports of `u16`). The request counter, a `u64`, is not
-- wrapped. A `Duration` is its nanoseconds, a text its code points, an `f64` its bit pattern, a JSON map
-- its entries in key order, an `f32` the pattern of the `f64` that it is widened to. A
-- method that takes `&mut self` is an action on a `Session`, the client and the world behind it.
--
-- Fuel. The loop of `send_in` runs on `leader_retries` as fuel: each repetition raises `retried`, and
-- the loop gives up when it reaches `leader_retries`, which no step changes, so the fuel is enough;
-- `Rounds` is the loop without fuel. All other loops are by recursion on their data, and the rollbacks
-- of the pool are at most 64, as in the code. The handshake of TLS runs on a bound on its rounds, which
-- each round that succeeds must lower for it not to run out; a handshake that succeeds needs no such
-- bound to be the loop of the source. Digits are printed on fuel
-- of one more than the number, which has no more digits than that.
--
-- Threads. The pool's lock makes each critical section one step, and the steps of all threads
-- interleave freely. A waiting thread may wake up at any time, so timeouts and spurious wake-ups are
-- included.
--
-- Not modelled: rustls and the readers of JSON that serde derives, which are parameters (the records
-- Environment, Rustls and those named Codec), as are the clock and the id of the process; `Debug`;
-- poisoned mutexes, which the code ignores;
-- closures that panic, after which the pool's slot is lost.
pub mod Common
pub mod Vector
pub mod Document
pub mod Tls
pub mod Llm
pub mod Graph
pub mod Lookups
pub mod Fixtures
pub mod Refusals
pub mod Explicit
pub mod Json
pub mod Failure
pub mod Act
pub mod Wire
pub mod Frame
pub mod Response
pub mod Options
pub mod Params
pub mod Address
pub mod Environment
pub mod Client
pub mod Sql
pub mod Pool
pub mod Cache
pub mod SerdeNull
