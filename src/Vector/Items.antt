-- ===== src/Vector/Items.antt =====
-- vector.rs: vectors, and the replies that hold them. An `f32` is the bit pattern of the `f64` that it
-- is widened to.
use tricoredb_sdk_rust.Common.{ℕ, Bool, List, Option, Text}
use tricoredb_sdk_rust.Common.Int.{ℤ}
use tricoredb_sdk_rust.Json.{Fields}
use tricoredb_sdk_rust.Vector.Kinds.{VectorMetric, VectorQuantization, FusionMethod}

pub record VectorItem : Type 0 where
  pub id : Text
  pub vector : List ℕ
  pub metadata : Fields

pub record VectorHit : Type 0 where
  pub id : Text
  pub score : ℕ
  pub metadata : Fields
  pub vector : Option (List ℕ)
  pub reason : Option Text

pub record VectorSearchResult : Type 0 where
  pub results : List VectorHit
  pub index : Text

pub record VectorCollectionSummary : Type 0 where
  pub name : Text
  pub dimension : ℕ
  pub metric : VectorMetric

pub record VectorCollectionInfo : Type 0 where
  pub collection : Text
  pub dimension : ℕ
  pub metric : VectorMetric
  pub count : ℤ
  pub quantization : VectorQuantization

pub record VectorPage : Type 0 where
  pub collection : Text
  pub count : ℕ
  pub vectors : List VectorItem
  pub truncated : Bool
  pub total : ℤ

pub record SparseVector : Type 0 where
  pub indices : List ℕ
  pub values : List ℕ

pub record Embedding : Type 0 where
  pub embedder : Text
  pub dimension : ℕ
  pub vectors : List (List ℕ)
  pub sparse : List SparseVector

pub record VectorAlias : Type 0 where
  pub alias : Text
  pub collection : Text

pub record VectorUpsert : Type 0 where
  pub id : Text
  pub vector : List ℕ
  pub metadata : Option Fields

pub record TextUpsert : Type 0 where
  pub id : Text
  pub text : Text
  pub metadata : Option Fields

pub record FusedHit : Type 0 where
  pub id : Text
  pub score : ℕ
  pub matched : ℕ
  pub metadata : Fields

pub record FusedSearchResult : Type 0 where
  pub fusion : FusionMethod
  pub queries : ℕ
  pub depth : ℕ
  pub results : List FusedHit

-- An example is sent as it is: an id, or a vector.
pub data VectorExample : Type 0 where
  id : Text → VectorExample
  vector : List ℕ → VectorExample
