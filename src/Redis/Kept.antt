-- ===== src/Redis/Kept.antt =====
-- A value that was written stays, and a claim with a digest accepts no other value.
use samples_python.Base.{
  ℕ, some, List, [], ◌∷◌, ◌≡◌, ◌≢◌, sym, ◌∙◌, ap, subst, inl, inr, arith, All, Bool-cases,
  Option-cases, get, none, false, Bool,
}
use samples_python.Base.Text.{Text, text, text_eq}
use samples_python.Redis.{
  RedisStorageDriver, Target, store_payload, build_key, Redis, StorageDriverClaim, ok,
  set_if_absent, retrieve_payload, check_found, check_hash, Event, stored, expired, apply,
  apply_all,
}
use samples_python.Redis.Cases.{get-set_if_absent, claim_for, store_payload_cases}
use samples_python.Redis.Store.{IsSound, OfPrefix, retrieve_payload-store_payload}
use samples_python.Redis.Quote.{Without}

unfoldable pub IsStored : {Payload : Type 0} → Event Payload → Type 0
IsStored (stored driver t fails payload) = Unit {0}
IsStored (expired key) = ⊥

module _ {Payload : Type 0} (serialize : Payload → Text) (parse : Text → Payload)
    (sha256 : Text → Text) where
  set_if_absent-kept :
      (key v k w : Text) (redis : Redis)
      → get k redis ≡ some w
      → get k (set_if_absent key v redis) ≡ some w
  set_if_absent-kept key v k w redis e = get-set_if_absent key v redis k ∙ ground (arith, e)

  -- Stores, of any payloads by any drivers for any targets, never change a value that is there.
  pub apply_all-kept :
      (es : List (Event Payload)) (redis : Redis) (k w : Text)
      → All IsStored es
      → get k redis ≡ some w
      → get k (apply_all serialize parse sha256 es redis) ≡ some w
  unfolding apply_all apply IsStored
  apply_all-kept [] redis k w p e = e
  apply_all-kept (stored driver t fails payload ∷ es) redis k w p e =
      apply_all-kept es _ k w p.1
        (elim (store_payload_cases serialize parse sha256 driver t fails payload redis) [
          | inl (x, refused) ↦ subst (λ x. get k x.1 ≡ some w) (sym refused) e
          | inr written ↦
              subst (λ x. get k x.1 ≡ some w) (sym written) (set_if_absent-kept _ _ k w redis e)
        ])
  apply_all-kept (expired key ∷ es) redis k w p e = ground (arith, p.0)

  check_hash-ok :
      (key v : Text) (c : ℕ) (cs : Text) (a : ℕ) (as' : Text) (payload : Payload)
      → check_hash serialize parse sha256 key v (some (c ∷ cs)) (some (a ∷ as')) ≡ ok payload
      → (a ∷ as' ≡ text "sha256") × (sha256 v ≡ c ∷ cs) × (parse v ≡ payload)
  unfolding check_hash
  check_hash-ok key v c cs a as' payload e =
      ground
        (arith, e, text_eq.same_iff (sha256 v) (c ∷ cs), text_eq.same_iff (a ∷ as') (text "sha256"))

  -- A claim that names a digest and an algorithm, both nonempty, brings back a payload only if the
  -- algorithm is SHA-256 and the value under the key has exactly the named digest; the payload is
  -- then parsed from that value.
  pub retrieve_payload-ok :
      (fails : Text → Bool) (claim : StorageDriverClaim) (redis : Redis) (payload : Payload)
      (c a : ℕ) (cs as' : Text)
      → claim.hash_value ≡ some (c ∷ cs)
      → claim.hash_algorithm ≡ some (a ∷ as')
      → retrieve_payload serialize parse sha256 fails claim redis ≡ ok payload
      → (v : Text) × (get claim.key redis ≡ some v)
        × (claim.hash_algorithm ≡ some (text "sha256"))
        × (claim.hash_value ≡ some (sha256 v))
        × (parse v ≡ payload)
  unfolding retrieve_payload check_found
  retrieve_payload-ok fails claim redis payload c a cs as' h k e =
      elim (Bool-cases (fails claim.key)) [
        | inl failed ↦ ground (arith, e, failed)
        | inr alive ↦ elim (Option-cases (get claim.key redis)) [
          | inl gone ↦ ground (arith, e, alive, gone)
          | inr (v, there) ↦
              let checked =
                check_hash-ok claim.key v c cs a as' payload (rw (alive, there, h, k) at e) in
              (v, there, k ∙ ap some checked.0, h ∙ ap some (sym checked.1), checked.2)
        ]
      ]

module _ {Payload : Type 0} (serialize : Payload → Text) (parse : Text → Payload)
    (sha256 : Text → Text) (hex : (s : Text) → Without b':' (sha256 s)) where
  pub store_payload_there :
      (driver : RedisStorageDriver) (t : Target) (fails : Text → Bool) (payload : Payload)
      (redis redis' : Redis) (claim : StorageDriverClaim)
      → store_payload serialize parse sha256 driver t fails payload redis ≡ (ok claim, redis')
      → get claim.key redis' ≢ none
  unfolding claim_for
  store_payload_there driver t fails payload redis redis' claim e gone =
      elim (store_payload_cases serialize parse sha256 driver t fails payload redis) [
        | inl (x, refused) ↦ ground (arith, sym refused ∙ e)
        | inr written ↦
            let key = build_key driver.key_prefix t (sha256 (serialize payload)) in
            ground (
              arith,
              gone,
              sym written ∙ e,
              get-set_if_absent key (serialize payload) redis key,
              text_eq.same_iff key key,
            )
      ]

  -- As long as no key expires, a stored payload comes back: after `store` has returned a claim, and
  -- after any sequence of further stores by drivers with the same prefix, for any targets and
  -- payloads, `retrieve` with that claim gives the payload itself. Redis holds only values that
  -- have the digests in their keys beforehand, parsing undoes serialising, digests hold no colon,
  -- no other bytes have the payload's digest, and Redis answers the reading call.
  pub retrieve_payload-store_payload_kept :
      (driver : RedisStorageDriver) (t : Target) (fails fails' : Text → Bool) (payload : Payload)
      (redis redis' : Redis) (claim : StorageDriverClaim) (es : List (Event Payload))
      → ((s : Text) → sha256 s ≡ sha256 (serialize payload) → s ≡ serialize payload)
      → parse (serialize payload) ≡ payload
      → IsSound serialize parse sha256 hex driver.key_prefix redis
      → store_payload serialize parse sha256 driver t fails payload redis ≡ (ok claim, redis')
      → All (OfPrefix serialize parse sha256 hex driver.key_prefix) es
      → All IsStored es
      → fails' claim.key ≡ false
      → retrieve_payload serialize parse sha256 fails' claim
          (apply_all serialize parse sha256 es redis')
        ≡ ok payload
  retrieve_payload-store_payload_kept driver t fails fails' payload redis redis' claim es unique
        round sound e p kept alive =
      elim (retrieve_payload-store_payload serialize parse sha256 hex driver t fails fails' payload
        redis redis' claim es unique round sound e p alive) [
          | inl back ↦ back
          | inr gone ↦ elim (Option-cases (get claim.key redis')) [
            | inl none_there ↦
                ground (
                  arith,
                  store_payload_there driver t fails payload redis redis' claim e none_there,
                )
            | inr (w, there) ↦ ground (
              arith,
              gone.0,
              apply_all-kept serialize parse sha256 es redis' claim.key w kept there,
            )
          ]
        ]
