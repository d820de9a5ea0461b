-- ===== src/Document.antt =====
-- document.rs: how the body of a document operation is built.
pub mod Kinds
pub mod Stages
pub mod Updates
pub mod Reports
pub mod Settings
pub mod Codec
pub mod Collections
pub mod Reads
pub mod Writes
pub mod Transactions
mod Tests
use tricoredb_sdk_rust.Common.{List, Text, codes}
use tricoredb_sdk_rust.Json.{Value, string, tagged}
use tricoredb_sdk_rust.Json.Maps.{Entry, entry, object}

pub op : Value → Value
op body = tagged (codes "Document") body

-- An operation with a body of named fields.
abbrev pub document_op : Text → List Entry → Value
document_op variant entries = op (tagged variant (object entries))

abbrev pub text_entry : Text → Text → Entry
text_entry k t = entry k (string t)
