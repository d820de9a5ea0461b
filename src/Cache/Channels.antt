-- ===== src/Cache/Channels.antt =====
-- cache.rs: channels, and what the node reports of itself.
use mathlib.Core.Option
use tricoredb_sdk_rust.Common.{ℕ, List, [], ◌∷◌, Option, Text, codes}
use tricoredb_sdk_rust.Common.Int.{ℤ}
use tricoredb_sdk_rust.Environment.{Environment}
use tricoredb_sdk_rust.Json.{Value, string, num, end, tagged, insert_field}
use tricoredb_sdk_rust.Json.Maps.{entry, or_null, texts, fill}
use tricoredb_sdk_rust.Response.{Parsed}
use tricoredb_sdk_rust.Client.{Call}
use tricoredb_sdk_rust.Cache.{ns_body, op}
use tricoredb_sdk_rust.Cache.Calls.{CacheCodec, cache_json}

pub record CacheMemoryStats : Type 0 where
  pub max_bytes : Option ℕ
  pub low_water_bytes : Option ℕ
  pub resident_bytes : Option ℕ
  pub measurements : ℕ

pub record CacheEvictionStats : Type 0 where
  pub policy : Text
  pub evicted : ℕ

pub record CacheStats : Type 0 where
  pub hits : ℕ
  pub misses : ℕ
  pub hit_ratio : Option ℕ
  pub memory : CacheMemoryStats
  pub eviction : CacheEvictionStats

pub record NamespaceLimit : Type 0 where
  pub namespace : Text
  pub keys : ℕ
  pub bytes : ℕ
  pub max_keys : Option ℕ
  pub max_bytes : Option ℕ

pub record ChannelMessage : Type 0 where
  pub id : ℕ
  pub channel : Text
  pub message : Text
  pub at_ms : ℤ

pub record PolledMessages : Type 0 where
  pub messages : List ChannelMessage
  pub next : ℕ

pub record ReportCodec : Type 0 where
  pub published : Value → Parsed ℕ
  pub polled : Value → Parsed PolledMessages
  pub stats : Value → Parsed CacheStats
  pub namespace_limit : Value → Parsed NamespaceLimit

module _ {W A S T : Type 0} (env : Environment W A S T) (codec : CacheCodec)
    (reports : ReportCodec) where
  cache_publish : Text → Text → Call env ℕ
  cache_publish channel message =
      cache_json env codec reports.published
        (op (codes "Publish") (
          fill
            (entry (codes "channel") (string channel)
              ∷ entry (codes "message") (string message)
              ∷ [])
            end))
        (codes "Publish")

  cache_poll : List Text → ℕ → Option ℕ → Call env PolledMessages
  cache_poll channels after limit =
      cache_json env codec reports.polled
        (op (codes "Poll") (
          fill
            (entry (codes "channels") (texts channels)
              ∷ entry (codes "after") (num after)
              ∷ (codes "limit", Option.map num limit)
              ∷ [])
            end))
        (codes "Poll")

  cache_stats : Call env CacheStats
  cache_stats =
      cache_json env codec reports.stats (tagged (codes "Cache") (string (codes "Stats")))
        (codes "Stats")

  cache_flush_database : Call env ℤ
  cache_flush_database =
      cache_json env codec (codec.int_field (codes "cleared"))
        (tagged (codes "Cache") (string (codes "FlushDatabase"))) (codes "FlushDatabase")

  cache_purge_expired : Call env ℤ
  cache_purge_expired =
      cache_json env codec (codec.int_field (codes "purged"))
        (tagged (codes "Cache") (string (codes "PurgeExpired"))) (codes "PurgeExpired")

  cache_hot_keys : Option ℕ → Call env Value
  cache_hot_keys limit =
      cache_json env codec codec.any_value
        (op (codes "HotKeys") (fill ((codes "limit", Option.map num limit) ∷ []) end))
        (codes "HotKeys")

  cache_set_namespace_limit : Text → Option ℕ → Option ℕ → Call env NamespaceLimit
  cache_set_namespace_limit namespace max_keys max_bytes =
      cache_json env codec reports.namespace_limit
        (op (codes "SetNamespaceLimit") (
          insert_field (codes "max_bytes") (or_null num max_bytes)
            (insert_field (codes "max_keys") (or_null num max_keys) (ns_body namespace))))
        (codes "SetNamespaceLimit")

  cache_get_namespace_limit : Text → Call env NamespaceLimit
  cache_get_namespace_limit namespace =
      cache_json env codec reports.namespace_limit
        (op (codes "GetNamespaceLimit") (ns_body namespace)) (codes "GetNamespaceLimit")
