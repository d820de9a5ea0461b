-- ===== src/Lookups.antt =====
-- The lookups of graph.rs and vector.rs, which answer null where nothing is stored.
mod Tests
use tricoredb_sdk_rust.Environment.{Environment}
use tricoredb_sdk_rust.Graph
use tricoredb_sdk_rust.Vector
