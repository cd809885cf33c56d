-- ===== src/Redis/Gather/Done.antt =====
-- A gathering whose tasks have each been completed has come to an end.
use samples_python.Base.{
  ℕ, zero, suc, ◌<◌, Bool, true, false, none, List, [], ◌∷◌, ◌≡◌, ◌≢◌, refl, sym, ◌∙◌, inl, inr,
  arith, nat_beq, length, contains, nat_eq, Bool-cases, Option-cases,
}
use samples_python.Base.Text.{Text}
use samples_python.Redis.{Redis, Result, ok, raised, apply}
use samples_python.Redis.Gather.{
  Slot, pending, finished, Gathering, running, failed, Turn, completes, meanwhile, with_slot,
  in_place, complete_task, results, tasks, run_turns,
}

-- The tasks that have been completed.
unfoldable pub completed : {Payload : Type 0} → List (Turn Payload) → List ℕ
completed [] = []
completed (completes n ∷ turns) = n ∷ completed turns
completed (meanwhile e ∷ turns) = completed turns

module _ {A B : Type 0} where
  abbrev pending_at : ℕ → List (Slot A B) → Bool
  pending_at n [] = false
  pending_at zero (pending a ∷ slots) = true
  pending_at zero (finished b ∷ slots) = false
  pending_at (suc n) (s ∷ slots) = pending_at n slots

  abbrev pub pending_in : ℕ → Gathering A B → Bool
  pending_in n (running slots) = pending_at n slots
  pending_in n (failed e) = false

  pending_in-with_slot :
      (m : ℕ) (s : Slot A B) (o : Gathering A B × Redis)
      → pending_in (suc m) (with_slot s o).0 ≡ pending_in m o.0
  pending_in-with_slot m s (running slots, redis) = refl
  pending_in-with_slot m s (failed e, redis) = refl

  pending_in-with_slot_zero :
      (s : Slot A B) (o : Gathering A B × Redis) (slots : List (Slot A B))
      → pending_in 0 (with_slot s o).0 ≡ true
      → pending_at 0 (s ∷ slots) ≡ true
  pending_in-with_slot_zero (pending a) o slots h = refl
  pending_in-with_slot_zero (finished b) (running ss, redis) slots h = h
  pending_in-with_slot_zero (finished b) (failed e, redis) slots h = h

  pending_in-in_place :
      (m : ℕ) (slots : List (Slot A B)) (o : Result B × Redis)
      → pending_in m (in_place slots o).0 ≡ true
      → (nat_beq m 0 ≡ false) × ((a : A) → pending_at m (pending a ∷ slots) ≡ true)
  pending_in-in_place zero slots (ok b, redis) h = ground (arith, h)
  pending_in-in_place (suc m) slots (ok b, redis) h = (ground arith, λ a. h)
  pending_in-in_place m slots (raised e, redis) h = ground (arith, h)

  complete_task-pending_in :
      (call : A → Redis → Result B × Redis) (n m : ℕ) (slots : List (Slot A B)) (redis : Redis)
      → pending_in m (complete_task call n slots redis).0 ≡ true
      → (pending_at m slots ≡ true) × (nat_beq m n ≡ false)
  unfolding complete_task
  complete_task-pending_in call n m [] redis h = ground (arith, h)
  complete_task-pending_in call zero m (pending a ∷ slots) redis h =
      let after = pending_in-in_place m slots (call a redis) h in (after.1 a, after.0)
  complete_task-pending_in call zero zero (finished b ∷ slots) redis h = ground (arith, h)
  complete_task-pending_in call zero (suc m) (finished b ∷ slots) redis h = (h, ground arith)
  complete_task-pending_in call (suc n) zero (s ∷ slots) redis h =
      (pending_in-with_slot_zero s (complete_task call n slots redis) slots h, ground arith)
  complete_task-pending_in call (suc n) (suc m) (s ∷ slots) redis h =
      let below =
        complete_task-pending_in call n m slots redis
          (sym (pending_in-with_slot m s (complete_task call n slots redis)) ∙ h) in
      (below.0, ground (arith, below.1))

  pub results-some :
      (slots : List (Slot A B)) → ((n : ℕ) → pending_at n slots ≡ false) → results slots ≢ none
  unfolding results
  results-some [] h = ground arith
  results-some (pending a ∷ slots) h = ground (arith, h 0)
  results-some (finished b ∷ slots) h = elim (Option-cases (results slots)) [
    | inl none_there ↦ absurd (results-some slots (λ n. h (suc n)) none_there)
    | inr (bs, there) ↦ rw there (ground arith)
  ]

pending_at-tasks :
    {A : Type 0} (B : Type 0) (n : ℕ) (coros : List A)
    → pending_at n (tasks {B = B} coros) ≡ true
    → n < length coros
pending_at-tasks B n [] h = ground (arith, h)
pending_at-tasks B zero (a ∷ coros) h = omega arith
pending_at-tasks B (suc n) (a ∷ coros) h = omega (arith, pending_at-tasks B n coros h)

module _ {Payload : Type 0} (serialize : Payload → Text) (parse : Text → Payload)
    (sha256 : Text → Text) {A B : Type 0} (call : A → Redis → Result B × Redis) where
  run_turns-pending_in :
      (m : ℕ) (turns : List (Turn Payload)) (g : Gathering A B) (redis : Redis)
      → pending_in m (run_turns serialize parse sha256 call turns g redis).0 ≡ true
      → (pending_in m g ≡ true) × (contains m (completed turns) ≡ false)
  unfolding run_turns completed contains
  run_turns-pending_in m [] g redis h = (h, refl)
  run_turns-pending_in m (meanwhile e ∷ turns) g redis h =
      run_turns-pending_in m turns g (apply serialize parse sha256 e redis) h
  run_turns-pending_in m (completes n ∷ turns) (failed e) redis h =
      ground (arith, run_turns-pending_in m turns (failed e) redis h)
  run_turns-pending_in m (completes n ∷ turns) (running slots) redis h =
      let now = complete_task call n slots redis in
      let later = run_turns-pending_in m turns now.0 now.1 h in
      let here = complete_task-pending_in call n m slots redis later.0 in
      (here.0, ground (arith, here.1, later.1))

  -- If each task is completed at some turn, none is pending in the end.
  pub run_turns-done :
      (coros : List A) (turns : List (Turn Payload)) (redis : Redis)
      → ((n : ℕ) → n < length coros → contains n (completed turns) ≡ true)
      → (n : ℕ)
      → pending_in n (run_turns serialize parse sha256 call turns (running (tasks coros)) redis).0
        ≡ false
  run_turns-done coros turns redis complete n =
      elim (Bool-cases (
        pending_in n
          (run_turns serialize parse sha256 call turns (running (tasks coros)) redis).0)) [
            | inr done ↦ done
            | inl still ↦
                let before = run_turns-pending_in n turns (running (tasks coros)) redis still in
                ground (arith, before.1, complete n (pending_at-tasks B n coros before.0))
          ]
