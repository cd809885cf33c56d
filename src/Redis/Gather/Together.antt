-- ===== src/Redis/Gather/Together.antt =====
-- What `store` wrote for several payloads, `retrieve` brings back in their order.
use samples_python.Base.{
  ℕ, Bool, false, none, some, List, [], ◌∷◌, ◌≡◌, ◌≢◌, refl, ap, ◌∙◌, subst, inl, inr, arith,
  Option-cases, get, All,
}
use samples_python.Base.Text.{Text, text_eq}
use samples_python.Redis.{
  RedisStorageDriver, Target, Redis, StorageDriverClaim, Result, ok, raised, Event, stored, apply,
  apply_all, store_payload, retrieve_payload,
}
use samples_python.Redis.Quote.{Without}
use samples_python.Redis.Cases.{claim_for}
use samples_python.Redis.Store.{
  IsSound, OfPrefix, apply-IsSound, store_payload-claim, retrieve_payload-claim_for,
}
use samples_python.Redis.Kept.{IsStored, apply_all-kept, store_payload_there}
use samples_python.Redis.Gather.{
  Slot, pending, finished, Gathering, running, failed, results, tasks, outcome,
}
use samples_python.Redis.Gather.Fits.{Keeps, Keeps-refl, Fits, GatheringFits, Brings}
use samples_python.Redis.Gather.Done.{pending_in, results-some}

module _ {Payload : Type 0} (serialize : Payload → Text) (parse : Text → Payload)
    (sha256 : Text → Text) (hex : (s : Text) → Without b':' (sha256 s)) where
  -- No other bytes have the payload's digest, and parsing undoes serialising.
  unfoldable pub IsRecoverable : Payload → Type 0
  IsRecoverable payload =
      ((s : Text) → sha256 s ≡ sha256 (serialize payload) → s ≡ serialize payload)
      × (parse (serialize payload) ≡ payload)

  -- A store by a driver with the prefix.
  unfoldable pub IsOwnStore : (key_prefix : Text) → Event Payload → Type 0
  IsOwnStore key_prefix e = OfPrefix serialize parse sha256 hex key_prefix e × IsStored e

  pub apply-Keeps :
      (key_prefix : Text) (e : Event Payload) (redis : Redis)
      → IsOwnStore key_prefix e
      → Keeps redis (apply serialize parse sha256 e redis)
  unfolding Keeps IsOwnStore apply_all
  apply-Keeps key_prefix e redis own = λ key there. elim (Option-cases (get key redis)) [
    | inl gone ↦ absurd (there gone)
    | inr (v, found) ↦
        ground (arith, apply_all-kept serialize parse sha256 (e ∷ []) redis key v (own.1, tt) found)
  ]

  module _ (driver : RedisStorageDriver) (t : Target) where
    abbrev own_claim : Payload → StorageDriverClaim
    own_claim payload = claim_for serialize parse sha256 driver t payload

    unfoldable pub IsThere : Payload → StorageDriverClaim → Redis → Type 0
    IsThere payload claim redis = (claim ≡ own_claim payload) × (get claim.key redis ≢ none)

    pub IsThere-lasts :
        (payload : Payload) (claim : StorageDriverClaim) (redis redis' : Redis)
        → Keeps redis redis'
        → IsThere payload claim redis
        → IsThere payload claim redis'
    unfolding IsThere Keeps
    IsThere-lasts payload claim redis redis' k there = (there.0, k claim.key there.1)

    abbrev pub Valid : Redis → Type 0
    Valid redis = IsSound serialize parse sha256 hex driver.key_prefix redis

    store_payload-Brings :
        (fails : Text → Bool) (payload : Payload) (redis : Redis)
        (o : Result StorageDriverClaim × Redis)
        → store_payload serialize parse sha256 driver t fails payload redis ≡ o
        → Brings IsThere Unit payload o.1 o.0
    unfolding IsThere
    store_payload-Brings fails payload redis (ok claim, redis') e = (
      store_payload-claim serialize parse sha256 hex driver t fails payload redis redis' claim e,
      store_payload_there serialize parse sha256 hex driver t fails payload redis redis' claim e,
    )
    store_payload-Brings fails payload redis (raised x, redis') e = tt

    unfoldable pub IsRequested : Payload → Payload → Redis → Type 0
    IsRequested payload asked redis = asked ≡ payload

    pub store_payload-fits :
        (fails : Text → Bool) (payload asked : Payload) (redis : Redis)
        → Valid redis
        → IsRequested payload asked redis
        → let o = store_payload serialize parse sha256 driver t fails asked redis in
          Valid o.1 × Keeps redis o.1 × Brings IsThere Unit payload o.1 o.0
    unfolding IsRequested apply OfPrefix IsStored IsOwnStore
    store_payload-fits fails payload asked redis sound same =
        let e = stored driver t fails asked in
        (
          apply-IsSound serialize parse sha256 hex driver.key_prefix e redis refl sound,
          apply-Keeps driver.key_prefix e redis (refl, tt),
          subst
              (λ p.
                Brings IsThere Unit p
                  (store_payload serialize parse sha256 driver t fails asked redis).1
                  (store_payload serialize parse sha256 driver t fails asked redis).0)
              same
              (store_payload-Brings fails asked redis
                (store_payload serialize parse sha256 driver t fails asked redis) refl),
        )

    unfoldable pub IsAwaited : Payload → StorageDriverClaim → Redis → Type 0
    IsAwaited payload claim redis = IsRecoverable payload × IsThere payload claim redis

    unfoldable pub IsBack : Payload → Payload → Redis → Type 0
    IsBack payload back redis = back ≡ payload

    pub retrieve_payload-fits :
        (fails : Text → Bool) (alive : (key : Text) → fails key ≡ false) (payload : Payload)
        (claim : StorageDriverClaim) (redis : Redis)
        → Valid redis
        → IsAwaited payload claim redis
        → Valid redis
          × Keeps redis redis
          × Brings IsBack ⊥ payload redis
              (retrieve_payload serialize parse sha256 fails claim redis)
    unfolding IsAwaited IsThere IsBack IsRecoverable
    retrieve_payload-fits fails alive payload claim redis sound awaited =
        let own = own_claim payload in
        elim (retrieve_payload-claim_for serialize parse sha256 hex driver t fails payload redis
          awaited.0.0 awaited.0.1 sound (alive own.key)) [
            | inl back ↦ (sound, Keeps-refl redis, rw (awaited.1.0, back) refl)
            | inr gone ↦ absurd (awaited.1.1 (ap (λ c. get c.key redis) awaited.1.0 ∙ gone.0))
          ]

    pub Fits-tasks :
        (payloads : List Payload) (redis : Redis)
        → Fits IsRequested IsThere payloads (tasks payloads) redis
    unfolding IsRequested
    Fits-tasks [] redis = tt
    Fits-tasks (payload ∷ payloads) redis = (refl, Fits-tasks payloads redis)

    -- The claims of a store that has returned are tasks for `retrieve`.
    Fits-claims :
        (payloads : List Payload) (slots : List (Slot Payload StorageDriverClaim))
        (claims : List StorageDriverClaim) (redis : Redis)
        → All IsRecoverable payloads
        → Fits IsRequested IsThere payloads slots redis
        → results slots ≡ some claims
        → Fits IsAwaited IsBack payloads (tasks claims) redis
    unfolding results IsAwaited
    Fits-claims [] [] [] redis good f e = tt
    Fits-claims [] [] (c ∷ claims) redis good f e = ground (arith, e)
    Fits-claims [] (s ∷ slots) claims redis good f e = absurd f
    Fits-claims (p ∷ payloads) [] claims redis good f e = absurd f
    Fits-claims (p ∷ payloads) (pending a ∷ slots) claims redis good f e = ground (arith, e)
    Fits-claims (p ∷ payloads) (finished c ∷ slots) claims redis good f e =
        elim (Option-cases (results slots)) [
          | inl waits ↦ ground (arith, rw waits at e)
          | inr (others, there) ↦
              let same : c ∷ others ≡ claims = ground (arith, rw there at e) in
              subst (λ cs. Fits IsAwaited IsBack (p ∷ payloads) (tasks cs) redis) same
                ((good.0, f.0), Fits-claims payloads slots others redis good.1 f.1 there)
        ]

    results-payloads :
        (payloads : List Payload) (slots : List (Slot StorageDriverClaim Payload))
        (back : List Payload) (redis : Redis)
        → Fits IsAwaited IsBack payloads slots redis
        → results slots ≡ some back
        → back ≡ payloads
    unfolding results IsBack
    results-payloads [] [] back redis f e = ground (arith, e)
    results-payloads [] (s ∷ slots) back redis f e = absurd f
    results-payloads (p ∷ payloads) [] back redis f e = absurd f
    results-payloads (p ∷ payloads) (pending a ∷ slots) back redis f e = ground (arith, e)
    results-payloads (p ∷ payloads) (finished q ∷ slots) back redis f e =
        elim (Option-cases (results slots)) [
          | inl waits ↦ ground (arith, rw waits at e)
          | inr (others, there) ↦
              ground
                (arith, rw there at e, f.0, results-payloads payloads slots others redis f.1 there)
        ]

    pub outcome-payloads :
        (payloads : List Payload) (g : Gathering StorageDriverClaim Payload) (redis : Redis)
        → GatheringFits IsAwaited IsBack ⊥ payloads g redis
        → ((n : ℕ) → pending_in n g ≡ false)
        → outcome g ≡ some (ok payloads)
    unfolding outcome
    outcome-payloads payloads (failed e) redis f done = absurd f
    outcome-payloads payloads (running slots) redis f done = elim (Option-cases (results slots)) [
      | inl waits ↦ absurd (results-some slots done waits)
      | inr (back, there) ↦
          rw there (ap (λ b. some (ok b)) (results-payloads payloads slots back redis f there))
    ]

    pub outcome-claims :
        (payloads : List Payload) (g : Gathering Payload StorageDriverClaim) (redis : Redis)
        (claims : List StorageDriverClaim)
        → All IsRecoverable payloads
        → GatheringFits IsRequested IsThere Unit payloads g redis
        → outcome g ≡ some (ok claims)
        → Fits IsAwaited IsBack payloads (tasks claims) redis
    unfolding outcome
    outcome-claims payloads (failed e) redis claims good f h = ground (arith, h)
    outcome-claims payloads (running slots) redis claims good f h =
        elim (Option-cases (results slots)) [
          | inl waits ↦ ground (arith, rw waits at h)
          | inr (there, found) ↦
              let same : there ≡ claims = ground (arith, rw found at h) in
              Fits-claims payloads slots claims redis good f (found ∙ ap some same)
        ]
