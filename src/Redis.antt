-- ===== src/Redis.antt =====
-- external_storage_redis/_driver.py and redis_asyncio.py: payloads in Redis under keys that name
-- the workflow or activity and the digest of the bytes. Texts are their UTF-8 bytes. SHA-256 and
-- the serialisation of payloads are parameters.
pub mod Quote
pub mod Key
pub mod Cases
pub mod Store
pub mod Kept
pub mod Gather
pub mod Tests
use Prim.Native.Nat.{max}
use samples_python.Base.{
  ℕ, suc, ◌+◌, ◌/◌, ◌≡◌, Bool, not, Option, none, some, List, [], ◌∷◌, ◌++◌, if◌then◌else◌, ltb,
  is_none, length, ◌==◌, get, set_item, del_item, ℤ,
}
use samples_python.Base.Text.{Text, text, join, rstrip, quote, text_eq}

-- What a payload belongs to; an activity's record has the same fields.
pub record StorageInfo : Type 0 where
  pub namespace : Option Text
  pub type : Option Text
  pub id : Option Text
  pub run_id : Option Text

pub data Target : Type 0 where
  no_target : Target
  workflow_target activity_target : StorageInfo → Target

pub record RedisStorageDriver : Type 0 where
  pub driver_name : Text
  pub key_prefix : Text
  -- in microseconds
  pub ttl : Option ℕ
  pub max_payload_size : ℕ

pub data ConfigError : Type 0 where
  max_payload_size_not_positive ttl_not_positive : ConfigError

pub data Configured : Type 0 where
  configured : RedisStorageDriver → Configured
  refused : ConfigError → Configured

abbrev or_default : Text → Text → Text
or_default default [] = default
or_default default (c ∷ cs) = c ∷ cs

check_ttl : (name prefix : Text) → ℕ → Option ℤ → Configured
check_ttl name prefix size (some (ℤ.negsuc n)) = refused ttl_not_positive
check_ttl name prefix size (some (ℤ.pos ℕ.zero)) = refused ttl_not_positive
check_ttl name prefix size (some (ℤ.pos (suc n))) = configured (record {
  driver_name = or_default (text "redis") name;
  key_prefix = rstrip b':' prefix;
  ttl = some (suc n);
  max_payload_size = size;
})
check_ttl name prefix size none = configured (record {
  driver_name = or_default (text "redis") name;
  key_prefix = rstrip b':' prefix;
  ttl = none;
  max_payload_size = size;
})

unfoldable pub new_driver : (name prefix : Text) → Option ℤ → (max_payload_size : ℤ) → Configured
unfolding check_ttl
new_driver name prefix ttl (ℤ.negsuc n) = refused max_payload_size_not_positive
new_driver name prefix ttl (ℤ.pos ℕ.zero) = refused max_payload_size_not_positive
new_driver name prefix ttl (ℤ.pos (suc n)) = check_ttl name prefix (suc n) ttl

-- `_quote`
unfoldable pub quote_value : Option Text → Option Text
quote_value none = none
quote_value (some []) = none
quote_value (some (c ∷ cs)) = some (quote (c ∷ cs))

-- `_quote(value) or "null"`
unfoldable pub or_null : Option Text → Text
or_null none = text "null"
or_null (some v) = or_default (text "null") v

abbrev pub namespace_of : Target → Option Text
namespace_of no_target = none
namespace_of (workflow_target i) = i.namespace
namespace_of (activity_target i) = i.namespace

unfoldable pub namespace_segments : Option Text → List Text
namespace_segments none = []
namespace_segments (some v) = text "ns" ∷ v ∷ []

unfoldable pub target_segments : Target → List Text
unfolding or_null quote_value
target_segments no_target = []
target_segments (workflow_target i) =
    text "wt"
    ∷ or_null (quote_value i.type)
    ∷ text "wi"
    ∷ or_null (quote_value i.id)
    ∷ text "ri"
    ∷ or_null (quote_value i.run_id)
    ∷ []
target_segments (activity_target i) =
    text "at"
    ∷ or_null (quote_value i.type)
    ∷ text "ai"
    ∷ or_null (quote_value i.id)
    ∷ text "ri"
    ∷ or_null (quote_value i.run_id)
    ∷ []

unfoldable pub segments : Target → (hash_digest : Text) → List Text
unfolding namespace_segments target_segments
segments t hash_digest =
    text "v0" ∷ namespace_segments (quote_value (namespace_of t))
    ++ (target_segments t ++ text "d" ∷ text "sha256" ∷ hash_digest ∷ [])

-- `_build_key`
unfoldable pub build_key : (key_prefix : Text) → Target → (hash_digest : Text) → Text
unfolding segments
build_key [] t hash_digest = join b':' (segments t hash_digest)
build_key (c ∷ cs) t hash_digest = (c ∷ cs) ++ b':' ∷ join b':' (segments t hash_digest)

-- `max(1, math.ceil(ttl.total_seconds() * 1000))`
unfoldable pub ttl_ms : Option ℕ → Option ℕ
ttl_ms none = none
ttl_ms (some microseconds) = some (max 1 ((microseconds + 999) / 1000))

abbrev pub Redis : Type 0
Redis = List (Text × Text)

-- Redis's `SET key data NX`
unfoldable pub set_if_absent : Text → Text → Redis → Redis
set_if_absent key payload_bytes redis =
    if is_none (get key redis) then set_item key payload_bytes redis else redis

pub record StorageDriverClaim : Type 0 where
  pub key : Text
  pub hash_algorithm : Option Text
  pub hash_value : Option Text

pub data Error : Type 0 where
  too_large : (payload_size max_payload_size : ℕ) → Error
  store_failed retrieve_failed payload_not_found : (key : Text) → Error
  unsupported_algorithm : (key hash_algorithm : Text) → Error
  integrity_check_failed : (key expected actual : Text) → Error

pub data Result {ℓ} (A : Type ℓ) : Type ℓ where
  ok : A → Result A
  raised : Error → Result A

-- What happens to the keys under one prefix: a driver stores a payload, or a key's time is over.
pub data Event (Payload : Type 0) : Type 0 where
  stored : RedisStorageDriver → Target → (fails : Text → Bool) → Payload → Event Payload
  expired : (key : Text) → Event Payload

module _ {Payload : Type 0} (serialize : Payload → Text) (parse : Text → Payload)
    (sha256 : Text → Text) where
  -- With the keys for which the client's call raises an exception.
  unfoldable pub store_payload :
      RedisStorageDriver
      → Target
      → (Text → Bool)
      → Payload
      → Redis
      → Result StorageDriverClaim × Redis
  store_payload driver t fails payload redis =
      let payload_bytes = serialize payload in
      let hash_digest = sha256 payload_bytes in
      let key = build_key driver.key_prefix t hash_digest in
      if ltb driver.max_payload_size (length payload_bytes)
      then (raised (too_large (length payload_bytes) driver.max_payload_size), redis)
      else if fails key
      then (raised (store_failed key), redis)
      else (
        ok (record {
          key = key;
          hash_algorithm = some (text "sha256");
          hash_value = some hash_digest;
        }),
        set_if_absent key payload_bytes redis,
      )

  -- `if expected_hash and hash_algorithm`: both are there and not empty.
  check_hash : (key payload_bytes : Text) → Option Text → Option Text → Result Payload
  check_hash key payload_bytes (some (c ∷ cs)) (some (a ∷ as')) =
      if not ((a ∷ as') == text "sha256")
      then raised (unsupported_algorithm key (a ∷ as'))
      else if sha256 payload_bytes == (c ∷ cs)
      then ok (parse payload_bytes)
      else raised (integrity_check_failed key (c ∷ cs) (sha256 payload_bytes))
  check_hash key payload_bytes _ _ = ok (parse payload_bytes)

  check_found : StorageDriverClaim → Option Text → Result Payload
  unfolding check_hash
  check_found claim none = raised (payload_not_found claim.key)
  check_found claim (some payload_bytes) =
      check_hash claim.key payload_bytes claim.hash_value claim.hash_algorithm

  unfoldable pub retrieve_payload : (Text → Bool) → StorageDriverClaim → Redis → Result Payload
  unfolding check_found
  retrieve_payload fails claim redis =
      if fails claim.key
      then raised (retrieve_failed claim.key)
      else check_found claim (get claim.key redis)

  unfoldable pub apply : Event Payload → Redis → Redis
  apply (stored driver t fails payload) redis = (store_payload driver t fails payload redis).1
  apply (expired key) redis = del_item key redis

  unfoldable pub apply_all : List (Event Payload) → Redis → Redis
  unfolding apply
  apply_all [] redis = redis
  apply_all (e ∷ es) redis = apply_all es (apply e redis)
