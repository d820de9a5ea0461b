-- ===== src/Cache/Locks.antt =====
-- cache.rs: locks.
use tricoredb_sdk_rust.Common.{ℕ, Bool, Option, none, some, Text, codes}
use tricoredb_sdk_rust.Common.Int.{ℤ}
use tricoredb_sdk_rust.Environment.{Environment}
use tricoredb_sdk_rust.Json.{Value, Fields, num, string, insert_field}
use tricoredb_sdk_rust.Options.{Duration}
use tricoredb_sdk_rust.Response.{Parsed}
use tricoredb_sdk_rust.Client.{Call}
use tricoredb_sdk_rust.Cache.{millis, ns_key, op}
use tricoredb_sdk_rust.Cache.Calls.{CacheCodec, cache_json}

pub record CacheLock : Type 0 where
  pub acquired : Bool
  pub token : Option ℕ
  pub holder : Option Text
  pub expires_at_ms : Option ℤ

pub record CacheLockRenewal : Type 0 where
  pub renewed : Bool
  pub renewed_token : Option ℕ
  pub renewed_until_ms : Option ℤ

-- The readers that serde derives for the replies.
pub record LockCodec : Type 0 where
  pub lock : Value → Parsed CacheLock
  pub renewal : Value → Parsed CacheLockRenewal

with_ttl : Option Duration → Fields → Fields
with_ttl none body = body
with_ttl (some ttl) body = insert_field (codes "ttl_ms") (num (millis ttl)) body

lock_op : Text → Text → Text → Text → Option Duration → Value
unfolding with_ttl
lock_op variant namespace key owner ttl =
    op variant (with_ttl ttl (insert_field (codes "owner") (string owner) (ns_key namespace key)))

module _ {W A S T : Type 0} (env : Environment W A S T) (codec : CacheCodec)
    (locks : LockCodec) where
  cache_lock_acquire : Text → Text → Text → Duration → Call env CacheLock
  unfolding lock_op
  cache_lock_acquire namespace key owner ttl =
      cache_json env codec locks.lock (lock_op (codes "LockAcquire") namespace key owner (some ttl))
        (codes "LockAcquire")

  cache_lock_renew : Text → Text → Text → Duration → Call env CacheLockRenewal
  unfolding lock_op
  cache_lock_renew namespace key owner ttl =
      cache_json env codec locks.renewal
        (lock_op (codes "LockRenew") namespace key owner (some ttl)) (codes "LockRenew")

  cache_lock_release : Text → Text → Text → Call env Bool
  unfolding lock_op
  cache_lock_release namespace key owner =
      cache_json env codec (codec.bool_field (codes "released"))
        (lock_op (codes "LockRelease") namespace key owner none) (codes "LockRelease")
