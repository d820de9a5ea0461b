-- ===== src/Cache/Entries.antt =====
-- cache.rs: pairs, entries and members built from their parts, and read as text. What the standard
-- library does with bytes that are not UTF-8 is a parameter.
use tricoredb_sdk_rust.Common.{ℕ, List, map, Option, Text}
use tricoredb_sdk_rust.Cache.{CachePair, CacheEntry}
use tricoredb_sdk_rust.Cache.Members.{StreamEntry}
use tricoredb_sdk_rust.Cache.Sorted.{ScoredMember}

-- `CachePair::new`.
abbrev new_pair : List ℕ → List ℕ → CachePair
new_pair f v = record { pair_field = f; pair_value = v }

-- `CacheEntry::new`.
abbrev new_entry : Text → List ℕ → CacheEntry
new_entry k v = record { entry_key = k; entry_value = v }

-- `ScoredMember::new`.
abbrev new_scored : ℕ → List ℕ → ScoredMember
new_scored score member = record { score = score; member = member }

-- `CachePair::field_text`, over `std::str::from_utf8`.
abbrev field_text : (List ℕ → Option Text) → CachePair → Option Text
field_text from_utf8 p = from_utf8 p.pair_field

-- `CachePair::value_text`.
abbrev value_text : (List ℕ → Option Text) → CachePair → Option Text
value_text from_utf8 p = from_utf8 p.pair_value

-- `StreamEntry::text`, over `String::from_utf8_lossy`: the entries of the map, in the order in which
-- they are collected.
abbrev entry_text : (List ℕ → Text) → StreamEntry → List (Text × Text)
entry_text from_utf8_lossy e =
    map (λ p. (from_utf8_lossy p.pair_field, from_utf8_lossy p.pair_value)) e.fields
