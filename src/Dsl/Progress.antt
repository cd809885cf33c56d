-- ===== src/Dsl/Progress.antt =====
-- Each activity of a program is done once, in any order in which the activities answer.
use samples_python.Base.{
  ℕ, ◌+◌, ◌-◌, ◌<◌, ◌≤◌, true, false, List, [], ◌∷◌, ◌≡◌, ◌↔◌, refl, inl, inr, arith, ltb, length,
  Bool-cases,
}
use samples_python.Dsl.{
  Statement, activity_statement, sequence_statement, parallel_statement, Statements, no_statements,
  and_then, Task, finished, awaiting, in_sequence, in_parallel, Tasks, no_tasks, with_task,
  Variables, continue_with, is_finished, all_finished, gather, start, start_sequence,
  start_parallel, awaited, all_awaited, complete, complete_in, run_all, run,
}
use samples_python.Dsl.Count.{count, remaining, all_remaining, start-remaining, complete-remaining}

module _ {Value : Type 0} (blank : Value) where
  -- What is not finished waits for an activity.
  unfoldable mutual
    pub IsLive : Task Value → Type 0
    IsLive finished = Unit {0}
    IsLive (awaiting name args result) = Unit {0}
    IsLive (in_sequence t ss) = IsLive t × (0 < awaited blank t)
    IsLive (in_parallel ts) = AllLive ts × (0 < all_awaited blank ts)

    pub AllLive : Tasks Value → Type 0
    AllLive no_tasks = Unit {0}
    AllLive (with_task t ts) = IsLive t × AllLive ts

  IsLive-awaited : (t : Task Value) → IsLive t → is_finished blank t ≡ false → 0 < awaited blank t
  unfolding IsLive awaited
  IsLive-awaited finished h e = ground (arith, e)
  IsLive-awaited (awaiting name args result) h e = ground arith
  IsLive-awaited (in_sequence t ss) h e = h.1
  IsLive-awaited (in_parallel ts) h e = h.1

  AllLive-all_awaited :
      (ts : Tasks Value) → AllLive ts → all_finished blank ts ≡ false → 0 < all_awaited blank ts
  unfolding IsLive awaited
  AllLive-all_awaited no_tasks h e = ground (arith, e)
  AllLive-all_awaited (with_task t ts) h e = elim (Bool-cases (is_finished blank t)) [
    | inr going ↦ ground (arith, IsLive-awaited t h.0 going)
    | inl done ↦ ground (arith, AllLive-all_awaited ts h.1 (rw done at e))
  ]

  continue_with-IsLive :
      (t : Task Value) (ss : Statements) (rest : Task Value)
      → IsLive t
      → IsLive rest
      → IsLive (continue_with blank t ss rest)
  unfolding IsLive awaited
  continue_with-IsLive finished ss rest h k = k
  continue_with-IsLive (awaiting name args result) ss rest h k = (h, ground arith)
  continue_with-IsLive (in_sequence t ts) ss rest h k = (h, h.1)
  continue_with-IsLive (in_parallel ts) ss rest h k = (h, h.1)

  gather-IsLive : (ts : Tasks Value) → AllLive ts → IsLive (gather blank ts)
  unfolding IsLive
  gather-IsLive ts h = elim (Bool-cases (all_finished blank ts)) [
    | inl done ↦ rw done tt
    | inr going ↦ rw going (h, AllLive-all_awaited ts h going)
  ]

  mutual
    unfolding start IsLive

    start-IsLive : (variables : Variables blank) (s : Statement) → IsLive (start blank variables s)
    start-IsLive variables (activity_statement a) = tt
    start-IsLive variables (sequence_statement ss) = start_sequence-IsLive variables ss
    start-IsLive variables (parallel_statement ss) =
        gather-IsLive (start_parallel blank variables ss) (start_parallel-AllLive variables ss)

    start_sequence-IsLive :
        (variables : Variables blank) (ss : Statements) → IsLive (start_sequence blank variables ss)
    start_sequence-IsLive variables no_statements = tt
    start_sequence-IsLive variables (and_then s ss) =
        continue_with-IsLive _ ss _ (start-IsLive variables s) (start_sequence-IsLive variables ss)

    start_parallel-AllLive :
        (variables : Variables blank) (ss : Statements)
        → AllLive (start_parallel blank variables ss)
    start_parallel-AllLive variables no_statements = tt
    start_parallel-AllLive variables (and_then s ss) =
        (start-IsLive variables s, start_parallel-AllLive variables ss)

  mutual
    unfolding complete IsLive

    complete-IsLive :
        (n : ℕ) (v : Value) (t : Task Value) (variables : Variables blank)
        → IsLive t
        → IsLive (complete blank n v t variables).0
    complete-IsLive n v finished variables h = tt
    complete-IsLive n v (awaiting name args result) variables h = tt
    complete-IsLive n v (in_sequence t ss) variables h =
        continue_with-IsLive _ ss _ (complete-IsLive n v t variables h.0)
          (start_sequence-IsLive (complete blank n v t variables).1 ss)
    complete-IsLive n v (in_parallel ts) variables h =
        gather-IsLive _ (complete_in-AllLive n v ts variables h.0)

    complete_in-AllLive :
        (n : ℕ) (v : Value) (ts : Tasks Value) (variables : Variables blank)
        → AllLive ts
        → AllLive (complete_in blank n v ts variables).0
    complete_in-AllLive n v no_tasks variables h = tt
    complete_in-AllLive n v (with_task t ts) variables h =
        elim (Bool-cases (ltb n (awaited blank t))) [
          | inl here ↦ rw here (complete-IsLive n v t variables h.0, h.1)
          | inr there ↦ rw there (h.0, complete_in-AllLive (n - awaited blank t) v ts variables h.1)
        ]

  -- Each answer is one to an activity that is under way.
  unfoldable pub Answers : List (ℕ × Value) → Task Value → Variables blank → Type 0
  Answers [] t variables = Unit {0}
  Answers ((n, v) ∷ answers) t variables =
      let (t', variables') = complete blank n v t variables in
      (n < awaited blank t) × Answers answers t' variables'

  run_all-remaining :
      (answers : List (ℕ × Value)) (t : Task Value) (variables : Variables blank)
      → Answers answers t variables
      → length answers + remaining blank (run_all blank answers t variables).0 ≡ remaining blank t
  unfolding run_all Answers
  run_all-remaining [] t variables h = ground arith
  run_all-remaining ((n, v) ∷ answers) t variables h =
      let (t', variables') = complete blank n v t variables in
      omega (
        arith,
        complete-remaining blank n v t variables h.0,
        run_all-remaining answers t' variables' h.1,
      )

  run_all-IsLive :
      (answers : List (ℕ × Value)) (t : Task Value) (variables : Variables blank)
      → IsLive t
      → IsLive (run_all blank answers t variables).0
  unfolding run_all
  run_all-IsLive [] t variables h = h
  run_all-IsLive ((n, v) ∷ answers) t variables h =
      run_all-IsLive answers (complete blank n v t variables).0 _
        (complete-IsLive n v t variables h)

  mutual
    unfolding awaited remaining

    awaited-remaining : (t : Task Value) → awaited blank t ≤ remaining blank t
    awaited-remaining finished = ground arith
    awaited-remaining (awaiting name args result) = ground arith
    awaited-remaining (in_sequence t ss) = omega (arith, awaited-remaining t)
    awaited-remaining (in_parallel ts) = all_awaited-all_remaining ts

    all_awaited-all_remaining : (ts : Tasks Value) → all_awaited blank ts ≤ all_remaining blank ts
    all_awaited-all_remaining no_tasks = ground arith
    all_awaited-all_remaining (with_task t ts) =
        omega (arith, awaited-remaining t, all_awaited-all_remaining ts)

  is_finished-remaining : (t : Task Value) → is_finished blank t ≡ true → remaining blank t ≡ 0
  unfolding remaining
  is_finished-remaining finished e = refl
  is_finished-remaining (awaiting name args result) e = ground (arith, e)
  is_finished-remaining (in_sequence t ss) e = ground (arith, e)
  is_finished-remaining (in_parallel ts) e = ground (arith, e)

  -- A program is carried out by as many answers as it has activities, in whatever order and with
  -- whatever values they come: as long as each answer is one to an activity under way, there are
  -- never more answers than activities, the run has finished exactly when there are as many, and
  -- until then some activity is under way.
  pub run-count :
      (root : Statement) (variables : Variables blank) (answers : List (ℕ × Value))
      → Answers answers (start blank variables root) variables
      → let left = (run blank root variables answers).0 in
        (length answers ≤ count root)
        × ((is_finished blank left ≡ true) ↔ (length answers ≡ count root))
        × (length answers < count root → 0 < awaited blank left)
  unfolding run
  run-count root variables answers h =
      let t = start blank variables root in
      let left = (run_all blank answers t variables).0 in
      let lasts = run_all-remaining answers t variables h in
      let all = start-remaining blank variables root in
      let live = run_all-IsLive answers t variables (start-IsLive variables root) in
      elim (Bool-cases (is_finished blank left)) [
        | inl done ↦
            let none_left = is_finished-remaining left done in
            (
              omega (arith, lasts, all),
              ((λ e. omega (arith, lasts, all, none_left)), (λ e. done)),
              λ fewer. omega (arith, fewer, lasts, all, none_left),
            )
        | inr going ↦
            let some_left = IsLive-awaited left live going in
            let bound = awaited-remaining left in
            (
              omega (arith, lasts, all),
              (
                (λ e. ground (arith, e, going)),
                (λ e. ground (arith, e, lasts, all, some_left, bound)),
              ),
              λ fewer. some_left,
            )
      ]
