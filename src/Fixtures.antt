-- ===== src/Fixtures.antt =====
-- Readers of replies for tests.
use tricoredb_sdk_rust.Common.{[], codes, true}
use tricoredb_sdk_rust.Common.Int.{ℤ}
use tricoredb_sdk_rust.Json.{Value, end}
use tricoredb_sdk_rust.Response.{Parsed, parsed, malformed}
use tricoredb_sdk_rust.Document.Codec.{DocumentCodec}
use tricoredb_sdk_rust.Graph.Codec.{GraphCodec}
use tricoredb_sdk_rust.Vector.Codec.{VectorCodec}

abbrev unread : {A : Type 0} → Value → Parsed A
unread v = malformed (codes "unread")

abbrev pub document_codec : DocumentCodec
document_codec = record {
  inserted = λ v. parsed (codes "d1");
  inserted_ids = unread;
  updated_one = unread;
  update_counts = unread;
  replace_result = unread;
  documents = λ v. parsed [];
  transaction = λ v. parsed (codes "t1");
  commit = λ v. parsed (record { committed = true; writes = ℤ.pos 1 });
  collections = unread;
  indexes = unread;
  rebuild = unread;
  stats = unread;
  purge_counts = unread;
  plan = unread;
  documents_checked = unread;
  collection_options = unread;
  deleted = unread;
  bulk_result = unread;
}

abbrev pub graph_codec : GraphCodec
graph_codec = record {
  graphs = λ v. parsed [];
  counts = unread;
  node = λ v. parsed (record { id = codes "n1"; labels = []; properties = end });
  node_page = unread;
  edge = unread;
  edge_page = unread;
  removed = unread;
  neighbors = unread;
  degree = unread;
  traversal = unread;
  path = unread;
  subgraph = unread;
  paths = unread;
  components = unread;
  cycle_check = unread;
  stats = unread;
  schema = unread;
  centrality = unread;
  communities = unread;
  triangles = unread;
  similar = unread;
  consistency = unread;
  page_rank = unread;
  schema_objects = unread;
  found_nodes = unread;
  rows = unread;
  summary = unread;
  transaction = λ v. parsed (codes "t1");
  rolled_back = λ v. parsed (ℤ.pos 1);
}

abbrev pub vector_codec : VectorCodec
vector_codec = record {
  config = unread;
  details = unread;
  info = unread;
  aliases = unread;
  partitions = unread;
  moved = unread;
  copied = unread;
  rebuild = unread;
  index_stats = unread;
  recall_report = unread;
  item = λ v. parsed (record { id = codes "v1"; vector = []; metadata = end });
  page = unread;
  embedding = unread;
  upserted = unread;
  deleted = unread;
  updated = unread;
  count = unread;
  search_result = unread;
  batch = unread;
  fused = unread;
}
