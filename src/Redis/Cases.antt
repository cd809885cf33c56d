-- ===== src/Redis/Cases.antt =====
-- What one write and one call of `store` do.
use samples_python.Base.{
  Bool, none, some, ◌≡◌, refl, inl, inr, arith, if◌then◌else◌, ltb, is_none, length, Bool-cases,
  ◌==◌, get, get-set_item, ◌⊎◌,
}
use samples_python.Base.Text.{Text, text, text_eq}
use samples_python.Redis.{
  Target, RedisStorageDriver, Redis, StorageDriverClaim, Error, too_large, store_failed, ok, raised,
  build_key, set_if_absent, store_payload,
}

-- The value at `k` after a write at `key`.
pub get-set_if_absent :
    (key payload_bytes : Text) (redis : Redis) (k : Text)
    → get k (set_if_absent key payload_bytes redis) ≡ (
        if is_none (get k redis)
        then (if k == key then some payload_bytes else none)
        else get k redis)
unfolding set_if_absent
get-set_if_absent key payload_bytes redis k =
    ground (arith, get-set_item key k payload_bytes redis, text_eq.same_iff k key)

module _ {Payload : Type 0} (serialize : Payload → Text) (parse : Text → Payload)
    (sha256 : Text → Text) where
  -- The claim that `store` returns for a payload.
  unfoldable pub claim_for : RedisStorageDriver → Target → Payload → StorageDriverClaim
  claim_for driver t payload = record {
    key = build_key driver.key_prefix t (sha256 (serialize payload));
    hash_algorithm = some (text "sha256");
    hash_value = some (sha256 (serialize payload));
  }

  -- What `store` does for one payload.
  pub store_payload_cases :
      (driver : RedisStorageDriver) (t : Target) (fails : Text → Bool) (payload : Payload)
      (redis : Redis)
      → ((e : Error) × (store_payload serialize parse sha256 driver t fails payload redis
            ≡ (raised e, redis)))
        ⊎ (store_payload serialize parse sha256 driver t fails payload redis ≡ (
          ok (claim_for driver t payload),
          set_if_absent
              (build_key driver.key_prefix t (sha256 (serialize payload)))
              (serialize payload)
              redis,
        ))
  unfolding store_payload claim_for
  store_payload_cases driver t fails payload redis =
      elim (Bool-cases (ltb driver.max_payload_size (length (serialize payload)))) [
        | inl large ↦
            inl (too_large (length (serialize payload)) driver.max_payload_size, rw large refl)
        | inr small ↦
            elim (Bool-cases (fails (build_key driver.key_prefix t (sha256 (serialize payload))))) [
              | inl failed ↦ inl (
                store_failed (build_key driver.key_prefix t (sha256 (serialize payload))),
                rw (small, failed) refl,
              )
              | inr written ↦ inr (rw (small, written) refl)
            ]
      ]
