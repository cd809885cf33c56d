-- ===== src/Redis/Gather/Roundtrip.antt =====
-- What `store` returned for several payloads, `retrieve` turns into them.
use samples_python.Base.{
  ℕ, ◌<◌, Bool, true, false, Option, some, List, ◌≡◌, ap, All, length, contains, subst, nat_eq,
}
use samples_python.Base.Text.{Text}
use samples_python.Redis.{
  RedisStorageDriver, Target, Redis, StorageDriverClaim, Result, ok, Event, apply, store_payload,
  retrieve_payload,
}
use samples_python.Redis.Quote.{Without}
use samples_python.Redis.Store.{IsSound, apply-IsSound}
use samples_python.Redis.Gather.{
  running, Turn, tasks, run_turns, outcome, gather_with_cancellation, store, retrieve,
}
use samples_python.Redis.Gather.Fits.{
  Keeps, Fits, GatheringFits, AllAllowed, run_turns-GatheringFits,
}
use samples_python.Redis.Gather.Done.{completed, run_turns-done}
use samples_python.Redis.Gather.Together.{
  IsRecoverable, IsOwnStore, apply-Keeps, IsThere, IsRequested, IsAwaited, IsBack, IsThere-lasts,
  store_payload-fits, retrieve_payload-fits, Fits-tasks, outcome-payloads, outcome-claims,
}

module _ {Payload : Type 0} (serialize : Payload → Text) (parse : Text → Payload)
    (sha256 : Text → Text) (hex : (s : Text) → Without b':' (sha256 s)) where
  module _ (driver : RedisStorageDriver) (t : Target) where
    abbrev Sound : Redis → Type 0
    Sound redis = IsSound serialize parse sha256 hex driver.key_prefix redis

    abbrev Own : Event Payload → Type 0
    Own e = IsOwnStore serialize parse sha256 hex driver.key_prefix e

    Own-apply :
        (e : Event Payload) (redis : Redis)
        → Own e
        → Sound redis
        → Sound (apply serialize parse sha256 e redis)
          × Keeps redis (apply serialize parse sha256 e redis)
    unfolding IsOwnStore
    Own-apply e redis own sound = (
      apply-IsSound serialize parse sha256 hex driver.key_prefix e redis own.0 sound,
      apply-Keeps serialize parse sha256 hex driver.key_prefix e redis own,
    )

    abbrev There : Payload → StorageDriverClaim → Redis → Type 0
    There = IsThere serialize parse sha256 hex driver t

    abbrev Requested : Payload → Payload → Redis → Type 0
    Requested = IsRequested serialize parse sha256 hex driver t

    abbrev Awaited : Payload → StorageDriverClaim → Redis → Type 0
    Awaited = IsAwaited serialize parse sha256 hex driver t

    abbrev Back : Payload → Payload → Redis → Type 0
    Back = IsBack serialize parse sha256 hex driver t

    Requested-lasts :
        (payload asked : Payload) (redis redis' : Redis)
        → Keeps redis redis'
        → Requested payload asked redis
        → Requested payload asked redis'
    unfolding IsRequested
    Requested-lasts payload asked redis redis' k h = h

    Awaited-lasts :
        (payload : Payload) (claim : StorageDriverClaim) (redis redis' : Redis)
        → Keeps redis redis'
        → Awaited payload claim redis
        → Awaited payload claim redis'
    unfolding IsAwaited
    Awaited-lasts payload claim redis redis' k h =
        (h.0, IsThere-lasts serialize parse sha256 hex driver t payload claim redis redis' k h.1)

    Back-lasts :
        (payload back : Payload) (redis redis' : Redis)
        → Keeps redis redis'
        → Back payload back redis
        → Back payload back redis'
    unfolding IsBack
    Back-lasts payload back redis redis' k h = h

    written_fits :
        (fails : Text → Bool) (payloads : List Payload) (turns : List (Turn Payload))
        (redis : Redis)
        → Sound redis
        → AllAllowed Own turns
        → let o =
            run_turns serialize parse sha256
              (store_payload serialize parse sha256 driver t fails)
              turns
              (running (tasks payloads))
              redis in
          Sound o.1 × GatheringFits Requested There Unit payloads o.0 o.1
    written_fits fails payloads turns redis sound own =
        run_turns-GatheringFits Sound Requested There Unit Requested-lasts
          (IsThere-lasts serialize parse sha256 hex driver t)
          (store_payload serialize parse sha256 driver t fails)
          (store_payload-fits serialize parse sha256 hex driver t fails) serialize parse sha256 Own
          Own-apply payloads turns (running (tasks payloads)) redis own sound
          (Fits-tasks serialize parse sha256 hex driver t payloads redis)

    abbrev reading : (Text → Bool) → StorageDriverClaim → Redis → Result Payload × Redis
    reading fails claim redis = (retrieve_payload serialize parse sha256 fails claim redis, redis)

    read-Fits :
        (fails : Text → Bool) (alive : (key : Text) → fails key ≡ false) (payloads : List Payload)
        (claims : List StorageDriverClaim) (turns : List (Turn Payload)) (redis : Redis)
        → Sound redis
        → AllAllowed Own turns
        → Fits Awaited Back payloads (tasks claims) redis
        → let o =
            run_turns serialize parse sha256 (reading fails) turns (running (tasks claims)) redis in
          GatheringFits Awaited Back ⊥ payloads o.0 o.1
    read-Fits fails alive payloads claims turns redis sound own asked =
        (run_turns-GatheringFits Sound Awaited Back ⊥ Awaited-lasts Back-lasts (reading fails)
          (retrieve_payload-fits serialize parse sha256 hex driver t fails alive) serialize parse
          sha256 Own Own-apply payloads turns (running (tasks claims)) redis own sound asked).1

    -- As long as no key expires, what `store` returned for any number of payloads, `retrieve` turns
    -- into these payloads in their order, whatever the order in which the tasks of both complete and
    -- whatever is stored meanwhile by drivers with the same prefix: once each task of `retrieve` is
    -- completed, it returns the payloads, and no error. Redis holds only values that have the digests in
    -- their keys beforehand, digests hold no colon, for each of the payloads parsing undoes
    -- serialising and no other bytes have its digest, and Redis answers the reading calls.
    pub retrieve-store :
        (fails fails' : Text → Bool) (payloads : List Payload) (turns turns' : List (Turn Payload))
        (redis redis' : Redis) (claims : List StorageDriverClaim)
        → All (IsRecoverable serialize parse sha256 hex) payloads
        → IsSound serialize parse sha256 hex driver.key_prefix redis
        → AllAllowed (IsOwnStore serialize parse sha256 hex driver.key_prefix) turns
        → AllAllowed (IsOwnStore serialize parse sha256 hex driver.key_prefix) turns'
        → store serialize parse sha256 driver t fails payloads turns redis
          ≡ (some (ok claims), redis')
        → ((key : Text) → fails' key ≡ false)
        → ((n : ℕ) → n < length claims → contains n (completed turns') ≡ true)
        → (retrieve serialize parse sha256 fails' claims turns' redis').0 ≡ some (ok payloads)
    unfolding store retrieve gather_with_cancellation
    retrieve-store fails fails' payloads turns turns' redis redis' claims good sound own own' e
          alive complete =
        let call = store_payload serialize parse sha256 driver t fails in
        let o = run_turns serialize parse sha256 call turns (running (tasks payloads)) redis in
        let written = written_fits fails payloads turns redis sound own in
        let same : o.1 ≡ redis' =
          ap (λ (r : Option (Result (List StorageDriverClaim)) × Redis). r.1) e in
        let ended : outcome o.0 ≡ some (ok claims) =
          ap (λ (r : Option (Result (List StorageDriverClaim)) × Redis). r.0) e in
        let asked =
          outcome-claims serialize parse sha256 hex driver t payloads o.0 o.1 claims good written.1
            ended in
        outcome-payloads serialize parse sha256 hex driver t payloads
          (run_turns serialize parse sha256 (reading fails') turns' (running (tasks claims))
            redis').0
          (run_turns serialize parse sha256 (reading fails') turns' (running (tasks claims))
            redis').1
          (read-Fits fails' alive payloads claims turns' redis' (subst Sound same written.0) own'
            (subst (λ r. Fits Awaited Back payloads (tasks claims) r) same asked))
          (run_turns-done serialize parse sha256 (reading fails') claims turns' redis' complete)
