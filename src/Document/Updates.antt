-- ===== src/Document/Updates.antt =====
-- document.rs: updates of fields, and the operations of a bulk write.
pub mod Building
use mathlib.Core.Option
use tricoredb_sdk_rust.Common.{
  ℕ, Bool, true, false, ◌&&◌, List, [], ◌∷◌, Option, none, some, Text, codes, if◌then◌else◌,
}
use tricoredb_sdk_rust.Json.{
  Value, Fields, end, obj, string, bool, num, tagged, insert_field, is_empty_map,
}
use tricoredb_sdk_rust.Json.Maps.{Entry, entry, or_null, object}

pub record DocumentUpdate : Type 0 where
  pub set : Fields
  pub inc : Fields

unfoldable pub new_update : DocumentUpdate
new_update = record { set = end; inc = end }

pub set_path : Text → Value → DocumentUpdate → DocumentUpdate
set_path path value update = record update { set = insert_field path value update.set }

pub inc_path : Text → Value → DocumentUpdate → DocumentUpdate
inc_path path delta update = record update { inc = insert_field path delta update.inc }

unfoldable pub is_empty_update : DocumentUpdate → Bool
is_empty_update update = is_empty_map update.set && is_empty_map update.inc

-- `skip_serializing_if = "Map::is_empty"`.
abbrev pub unless_empty_map : Fields → Option Value
unless_empty_map fs = if is_empty_map fs then none else some (obj fs)

pub update_json : DocumentUpdate → Value
update_json update =
    object
      ((codes "set", unless_empty_map update.set) ∷ (codes "inc", unless_empty_map update.inc) ∷ [])

pub data BulkOp : Type 0 where
  insert : Option Text → Value → BulkOp
  update_one : Text → DocumentUpdate → Bool → Option ℕ → BulkOp
  replace : Text → Value → Bool → Option ℕ → BulkOp
  delete : Text → Option ℕ → BulkOp

new_insert : Value → BulkOp
new_insert document = insert none document

insert_with_id : Text → Value → BulkOp
insert_with_id id document = insert (some id) document

new_update_one : Text → DocumentUpdate → BulkOp
new_update_one id update = update_one id update false none

new_replace : Text → Value → BulkOp
new_replace id document = replace id document false none

new_delete : Text → BulkOp
new_delete id = delete id none

-- `BulkOp::upsert`.
with_upsert : BulkOp → BulkOp
with_upsert (update_one id update upsert version) = update_one id update true version
with_upsert (replace id document upsert version) = replace id document true version
with_upsert other = other

-- `BulkOp::expected_version`.
expecting : ℕ → BulkOp → BulkOp
expecting v (update_one id update upsert version) = update_one id update upsert (some v)
expecting v (replace id document upsert version) = replace id document upsert (some v)
expecting v (delete id version) = delete id (some v)
expecting v (insert id document) = insert id document

pub bulk_json : BulkOp → Value
unfolding update_json
bulk_json (insert id document) =
    tagged (codes "Insert")
      (object (entry (codes "id") (or_null string id) ∷ entry (codes "document") document ∷ []))
bulk_json (update_one id update upsert version) = tagged (codes "UpdateOne") (
    object (
      entry (codes "id") (string id)
      ∷ entry (codes "update") (update_json update)
      ∷ entry (codes "upsert") (bool upsert)
      ∷ entry (codes "expected_version") (or_null num version)
      ∷ []))
bulk_json (replace id document upsert version) = tagged (codes "Replace") (
    object (
      entry (codes "id") (string id)
      ∷ entry (codes "document") document
      ∷ entry (codes "upsert") (bool upsert)
      ∷ entry (codes "expected_version") (or_null num version)
      ∷ []))
bulk_json (delete id version) = tagged (codes "Delete") (
    object (
      entry (codes "id") (string id) ∷ entry (codes "expected_version") (or_null num version) ∷ []))
