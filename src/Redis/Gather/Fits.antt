-- ===== src/Redis/Gather/Fits.antt =====
-- The slots of a gathering, against what its tasks were asked for.
use samples_python.Base.{ℕ, zero, suc, none, List, [], ◌∷◌, ◌≢◌, get}
use samples_python.Base.Text.{Text, text_eq}
use samples_python.Redis.{Redis, Result, ok, raised, Event, apply}
use samples_python.Redis.Gather.{
  Slot, pending, finished, Gathering, running, failed, Turn, completes, meanwhile, with_slot,
  in_place, complete_task, run_turns,
}

-- What is under a key stays under it.
unfoldable pub Keeps : Redis → Redis → Type 0
Keeps redis redis' = (key : Text) → get key redis ≢ none → get key redis' ≢ none

pub Keeps-refl : (redis : Redis) → Keeps redis redis
unfolding Keeps
Keeps-refl redis = λ key there. there

-- What the turns' events are.
abbrev pub AllAllowed : {Payload : Type 0} → (Event Payload → Type 0) → List (Turn Payload) → Type 0
AllAllowed Allowed [] = Unit
AllAllowed Allowed (completes n ∷ turns) = AllAllowed Allowed turns
AllAllowed Allowed (meanwhile e ∷ turns) = Allowed e × AllAllowed Allowed turns

-- `Ask x a` is what holds of a call for `x`, `Got x b` of what it brings.
abbrev pub Brings :
    {X B : Type 0} → (X → B → Redis → Type 0) → (MayFail : Type 0) → X → Redis → Result B → Type 0
Brings Got MayFail x redis (ok b) = Got x b redis
Brings Got MayFail x redis (raised e) = MayFail

module _ {X A B : Type 0} (Ask : X → A → Redis → Type 0) (Got : X → B → Redis → Type 0) where
  abbrev pub Fits : List X → List (Slot A B) → Redis → Type 0
  Fits [] [] redis = Unit
  Fits [] (s ∷ slots) redis = ⊥
  Fits (x ∷ xs) [] redis = ⊥
  Fits (x ∷ xs) (pending a ∷ slots) redis = Ask x a redis × Fits xs slots redis
  Fits (x ∷ xs) (finished b ∷ slots) redis = Got x b redis × Fits xs slots redis

  abbrev pub GatheringFits : (MayFail : Type 0) → List X → Gathering A B → Redis → Type 0
  GatheringFits MayFail xs (running slots) redis = Fits xs slots redis
  GatheringFits MayFail xs (failed e) redis = MayFail

-- `Ask` and `Got` last.
module _ {X A B : Type 0} (IsValid : Redis → Type 0) (Ask : X → A → Redis → Type 0)
    (Got : X → B → Redis → Type 0) (MayFail : Type 0)
    (ask_lasts : (x : X) (a : A) (redis redis' : Redis)
      → Keeps redis redis'
      → Ask x a redis
      → Ask x a redis')
    (got_lasts : (x : X) (b : B) (redis redis' : Redis)
      → Keeps redis redis'
      → Got x b redis
      → Got x b redis') where
  Fits-lasts :
      (xs : List X) (slots : List (Slot A B)) (redis redis' : Redis)
      → Keeps redis redis'
      → Fits Ask Got xs slots redis
      → Fits Ask Got xs slots redis'
  Fits-lasts [] [] redis redis' k f = tt
  Fits-lasts [] (s ∷ slots) redis redis' k f = absurd f
  Fits-lasts (x ∷ xs) [] redis redis' k f = absurd f
  Fits-lasts (x ∷ xs) (pending a ∷ slots) redis redis' k f =
      (ask_lasts x a redis redis' k f.0, Fits-lasts xs slots redis redis' k f.1)
  Fits-lasts (x ∷ xs) (finished b ∷ slots) redis redis' k f =
      (got_lasts x b redis redis' k f.0, Fits-lasts xs slots redis redis' k f.1)

  GatheringFits-lasts :
      (xs : List X) (g : Gathering A B) (redis redis' : Redis)
      → Keeps redis redis'
      → GatheringFits Ask Got MayFail xs g redis
      → GatheringFits Ask Got MayFail xs g redis'
  GatheringFits-lasts xs (running slots) redis redis' k f = Fits-lasts xs slots redis redis' k f
  GatheringFits-lasts xs (failed e) redis redis' k f = f

  -- What a turn leaves.
  abbrev pub Left : List X → Redis → Gathering A B × Redis → Type 0
  Left xs redis o = IsValid o.1 × Keeps redis o.1 × GatheringFits Ask Got MayFail xs o.0 o.1

  module _ (call : A → Redis → Result B × Redis)
      (call_fits : (x : X) (a : A) (redis : Redis)
        → IsValid redis
        → Ask x a redis
        → IsValid (call a redis).1
          × Keeps redis (call a redis).1
          × Brings Got MayFail x (call a redis).1 (call a redis).0) where
    in_place-Left :
        (x : X) (xs : List X) (slots : List (Slot A B)) (redis : Redis) (o : Result B × Redis)
        → IsValid o.1 × Keeps redis o.1 × Brings Got MayFail x o.1 o.0
        → Fits Ask Got xs slots redis
        → Left (x ∷ xs) redis (in_place slots o)
    in_place-Left x xs slots redis (ok b, redis') c f =
        (c.0, c.1, (c.2, Fits-lasts xs slots redis redis' c.1 f))
    in_place-Left x xs slots redis (raised e, redis') c f = c

    with_pending-Left :
        (x : X) (a : A) (xs : List X) (redis : Redis) (o : Gathering A B × Redis)
        → Ask x a redis
        → Left xs redis o
        → Left (x ∷ xs) redis (with_slot (pending a) o)
    with_pending-Left x a xs redis (running slots, redis') ask l =
        (l.0, l.1, (ask_lasts x a redis redis' l.1 ask, l.2))
    with_pending-Left x a xs redis (failed e, redis') ask l = l

    with_finished-Left :
        (x : X) (b : B) (xs : List X) (redis : Redis) (o : Gathering A B × Redis)
        → Got x b redis
        → Left xs redis o
        → Left (x ∷ xs) redis (with_slot (finished b) o)
    with_finished-Left x b xs redis (running slots, redis') got l =
        (l.0, l.1, (got_lasts x b redis redis' l.1 got, l.2))
    with_finished-Left x b xs redis (failed e, redis') got l = l

    complete_task-Left :
        (n : ℕ) (xs : List X) (slots : List (Slot A B)) (redis : Redis)
        → IsValid redis
        → Fits Ask Got xs slots redis
        → Left xs redis (complete_task call n slots redis)
    unfolding complete_task
    complete_task-Left n [] [] redis v f = (v, Keeps-refl redis, f)
    complete_task-Left n [] (s ∷ slots) redis v f = absurd f
    complete_task-Left n (x ∷ xs) [] redis v f = absurd f
    complete_task-Left zero (x ∷ xs) (pending a ∷ slots) redis v f =
        in_place-Left x xs slots redis (call a redis) (call_fits x a redis v f.0) f.1
    complete_task-Left zero (x ∷ xs) (finished b ∷ slots) redis v f = (v, Keeps-refl redis, f)
    complete_task-Left (suc n) (x ∷ xs) (pending a ∷ slots) redis v f =
        with_pending-Left x a xs redis (complete_task call n slots redis) f.0
          (complete_task-Left n xs slots redis v f.1)
    complete_task-Left (suc n) (x ∷ xs) (finished b ∷ slots) redis v f =
        with_finished-Left x b xs redis (complete_task call n slots redis) f.0
          (complete_task-Left n xs slots redis v f.1)

    module _ {Payload : Type 0} (serialize : Payload → Text) (parse : Text → Payload)
        (sha256 : Text → Text) (Allowed : Event Payload → Type 0)
        (event_fits : (e : Event Payload) (redis : Redis)
          → Allowed e
          → IsValid redis
          → IsValid (apply serialize parse sha256 e redis)
            × Keeps redis (apply serialize parse sha256 e redis)) where
      pub run_turns-GatheringFits :
          (xs : List X) (turns : List (Turn Payload)) (g : Gathering A B) (redis : Redis)
          → AllAllowed Allowed turns
          → IsValid redis
          → GatheringFits Ask Got MayFail xs g redis
          → let o = run_turns serialize parse sha256 call turns g redis in
            IsValid o.1 × GatheringFits Ask Got MayFail xs o.0 o.1
      unfolding run_turns
      run_turns-GatheringFits xs [] g redis allowed v f = (v, f)
      run_turns-GatheringFits xs (meanwhile e ∷ turns) g redis allowed v f =
          let after = event_fits e redis allowed.0 v in
          run_turns-GatheringFits xs turns g (apply serialize parse sha256 e redis) allowed.1
            after.0
            (GatheringFits-lasts xs g redis (apply serialize parse sha256 e redis) after.1 f)
      run_turns-GatheringFits xs (completes n ∷ turns) (failed e) redis allowed v f =
          run_turns-GatheringFits xs turns (failed e) redis allowed v f
      run_turns-GatheringFits xs (completes n ∷ turns) (running slots) redis allowed v f =
          let o = complete_task call n slots redis in
          let left = complete_task-Left n xs slots redis v f in
          run_turns-GatheringFits xs turns o.0 o.1 allowed left.0 left.2
