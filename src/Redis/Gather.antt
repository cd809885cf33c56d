-- ===== src/Redis/Gather.antt =====
-- external_storage_redis/_driver.py: `store` and `retrieve` of several payloads, whose tasks run
-- together. A turn is the completion of a task's call, or what others do at the time: a store, which
-- can be that of a task that was cancelled after its call had been sent, or an expiry.
pub mod Fits
pub mod Done
mod Together
pub mod Roundtrip
mod Tests
use samples_python.Base.{ℕ, zero, suc, Bool, Option, none, some, List, [], ◌∷◌, map}
use samples_python.Base.Text.{Text}
use samples_python.Redis.{
  RedisStorageDriver, Target, Redis, StorageDriverClaim, Error, Result, ok, raised, Event,
  store_payload, retrieve_payload, apply,
}

pub data Slot (A B : Type 0) : Type 0 where
  pending : A → Slot A B
  finished : B → Slot A B

-- The tasks, or the error that one of them has raised; the others are cancelled then.
pub data Gathering (A B : Type 0) : Type 0 where
  running : List (Slot A B) → Gathering A B
  failed : Error → Gathering A B

pub data Turn (Payload : Type 0) : Type 0 where
  completes : (n : ℕ) → Turn Payload
  meanwhile : Event Payload → Turn Payload

abbrev pub cons_result : {B : Type 0} → B → Option (List B) → Option (List B)
cons_result b none = none
cons_result b (some bs) = some (b ∷ bs)

abbrev pub returned : {B : Type 0} → Option (List B) → Option (Result (List B))
returned none = none
returned (some bs) = some (ok bs)

module _ {A B : Type 0} where
  abbrev pub with_slot : Slot A B → Gathering A B × Redis → Gathering A B × Redis
  with_slot s (running slots, redis) = (running (s ∷ slots), redis)
  with_slot s (failed e, redis) = (failed e, redis)

  abbrev pub in_place : List (Slot A B) → Result B × Redis → Gathering A B × Redis
  in_place slots (ok b, redis) = (running (finished b ∷ slots), redis)
  in_place slots (raised e, redis) = (failed e, redis)

  unfoldable pub complete_task :
      (A → Redis → Result B × Redis) → ℕ → List (Slot A B) → Redis → Gathering A B × Redis
  complete_task call n [] redis = (running [], redis)
  complete_task call zero (pending a ∷ slots) redis = in_place slots (call a redis)
  complete_task call zero (finished b ∷ slots) redis = (running (finished b ∷ slots), redis)
  complete_task call (suc n) (s ∷ slots) redis = with_slot s (complete_task call n slots redis)

  -- The results in the order of the tasks, when each has one.
  unfoldable pub results : List (Slot A B) → Option (List B)
  results [] = some []
  results (pending a ∷ slots) = none
  results (finished b ∷ slots) = cons_result b (results slots)

  -- What the gathering has come to, `none` while it waits.
  unfoldable pub outcome : Gathering A B → Option (Result (List B))
  unfolding results
  outcome (running slots) = returned (results slots)
  outcome (failed e) = some (raised e)

  abbrev pub tasks : List A → List (Slot A B)
  tasks [] = []
  tasks (a ∷ coros) = pending a ∷ tasks coros

module _ {Payload : Type 0} (serialize : Payload → Text) (parse : Text → Payload)
    (sha256 : Text → Text) where
  module _ {A B : Type 0} (call : A → Redis → Result B × Redis) where
    abbrev pub turn_of : Turn Payload → Gathering A B → Redis → Gathering A B × Redis
    turn_of (completes n) (running slots) redis = complete_task call n slots redis
    turn_of (completes n) (failed e) redis = (failed e, redis)
    turn_of (meanwhile e) g redis = (g, apply serialize parse sha256 e redis)

    unfoldable pub run_turns : List (Turn Payload) → Gathering A B → Redis → Gathering A B × Redis
    run_turns [] g redis = (g, redis)
    run_turns (t ∷ turns) g redis =
        let (g', redis') = turn_of t g redis in run_turns turns g' redis'

    -- `_gather_with_cancellation`
    unfoldable pub gather_with_cancellation :
        List A → List (Turn Payload) → Redis → Option (Result (List B)) × Redis
    unfolding run_turns
    gather_with_cancellation coros turns redis =
        let (g, redis') = run_turns turns (running (tasks coros)) redis in (outcome g, redis')

  unfoldable pub store :
      RedisStorageDriver
      → Target
      → (fails : Text → Bool) → List Payload
      → List (Turn Payload)
      → Redis
      → Option (Result (List StorageDriverClaim)) × Redis
  unfolding gather_with_cancellation
  store driver t fails payloads turns redis =
      gather_with_cancellation (store_payload serialize parse sha256 driver t fails) payloads turns
        redis

  unfoldable pub retrieve :
      (fails : Text → Bool)
      → List StorageDriverClaim
      → List (Turn Payload)
      → Redis
      → Option (Result (List Payload)) × Redis
  unfolding gather_with_cancellation
  retrieve fails claims turns redis =
      gather_with_cancellation
        (λ claim redis'. (retrieve_payload serialize parse sha256 fails claim redis', redis'))
        claims turns redis
