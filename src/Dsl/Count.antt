-- ===== src/Dsl/Count.antt =====
-- The activities that a program has left, before and after a turn.
use samples_python.Base.{
  ℕ, ◌+◌, ◌-◌, ◌<◌, true, ◌≡◌, refl, sym, ◌∙◌, ap, inl, inr, arith, ltb, Bool-cases,
}
use samples_python.Dsl.{
  Statement, activity_statement, sequence_statement, parallel_statement, Statements, no_statements,
  and_then, Task, finished, awaiting, in_sequence, in_parallel, Tasks, no_tasks, with_task,
  Variables, continue_with, all_finished, gather, start, start_sequence, start_parallel, awaited,
  all_awaited, complete, complete_in,
}

-- The activities of a statement.
unfoldable mutual
  pub count : Statement → ℕ
  count (activity_statement a) = 1
  count (sequence_statement ss) = count_all ss
  count (parallel_statement ss) = count_all ss

  pub count_all : Statements → ℕ
  count_all no_statements = 0
  count_all (and_then s ss) = count s + count_all ss

module _ {Value : Type 0} (blank : Value) where
  -- The activities that are left, under way or not.
  unfoldable mutual
    pub remaining : Task Value → ℕ
    remaining finished = 0
    remaining (awaiting name args result) = 1
    remaining (in_sequence t ss) = remaining t + count_all ss
    remaining (in_parallel ts) = all_remaining ts

    pub all_remaining : Tasks Value → ℕ
    all_remaining no_tasks = 0
    all_remaining (with_task t ts) = remaining t + all_remaining ts

  continue_with-remaining :
      (t : Task Value) (ss : Statements) (rest : Task Value)
      → remaining rest ≡ count_all ss
      → remaining (continue_with blank t ss rest) ≡ remaining t + count_all ss
  unfolding remaining
  continue_with-remaining finished ss rest e = omega (arith, e)
  continue_with-remaining (awaiting name args result) ss rest e = refl
  continue_with-remaining (in_sequence t ts) ss rest e = refl
  continue_with-remaining (in_parallel ts) ss rest e = refl

  all_finished-all_remaining :
      (ts : Tasks Value) → all_finished blank ts ≡ true → all_remaining ts ≡ 0
  unfolding remaining
  all_finished-all_remaining no_tasks e = refl
  all_finished-all_remaining (with_task finished ts) e =
      omega (arith, all_finished-all_remaining ts e)
  all_finished-all_remaining (with_task (awaiting name args result) ts) e = ground (arith, e)
  all_finished-all_remaining (with_task (in_sequence t ss) ts) e = ground (arith, e)
  all_finished-all_remaining (with_task (in_parallel us) ts) e = ground (arith, e)

  gather-remaining : (ts : Tasks Value) → remaining (gather blank ts) ≡ all_remaining ts
  unfolding remaining
  gather-remaining ts = elim (Bool-cases (all_finished blank ts)) [
    | inl done ↦ rw done (sym (all_finished-all_remaining ts done))
    | inr going ↦ rw going refl
  ]

  mutual
    unfolding start remaining count

    pub start-remaining :
        (variables : Variables blank) (s : Statement)
        → remaining (start blank variables s) ≡ count s
    start-remaining variables (activity_statement a) = refl
    start-remaining variables (sequence_statement ss) = start_sequence-remaining variables ss
    start-remaining variables (parallel_statement ss) =
        gather-remaining (start_parallel blank variables ss) ∙ start_parallel-remaining variables ss

    start_sequence-remaining :
        (variables : Variables blank) (ss : Statements)
        → remaining (start_sequence blank variables ss) ≡ count_all ss
    start_sequence-remaining variables no_statements = refl
    start_sequence-remaining variables (and_then s ss) =
        continue_with-remaining (start blank variables s) ss (start_sequence blank variables ss)
          (start_sequence-remaining variables ss)
        ∙ ap (λ (n : ℕ). n + count_all ss) (start-remaining variables s)

    start_parallel-remaining :
        (variables : Variables blank) (ss : Statements)
        → all_remaining (start_parallel blank variables ss) ≡ count_all ss
    start_parallel-remaining variables no_statements = refl
    start_parallel-remaining variables (and_then s ss) =
        omega (arith, start-remaining variables s, start_parallel-remaining variables ss)

  mutual
    unfolding complete awaited remaining

    pub complete-remaining :
        (n : ℕ) (v : Value) (t : Task Value) (variables : Variables blank)
        → n < awaited blank t
        → remaining (complete blank n v t variables).0 + 1 ≡ remaining t
    complete-remaining n v finished variables h = ground (arith, h)
    complete-remaining n v (awaiting name args result) variables h = refl
    complete-remaining n v (in_sequence t ss) variables h =
        let (t', variables') = complete blank n v t variables in
        omega (
          arith,
          complete-remaining n v t variables h,
          continue_with-remaining t' ss (start_sequence blank variables' ss)
              (start_sequence-remaining variables' ss),
        )
    complete-remaining n v (in_parallel ts) variables h = omega (
      arith,
      complete_in-all_remaining n v ts variables h,
      gather-remaining (complete_in blank n v ts variables).0,
    )

    complete_in-all_remaining :
        (n : ℕ) (v : Value) (ts : Tasks Value) (variables : Variables blank)
        → n < all_awaited blank ts
        → all_remaining (complete_in blank n v ts variables).0 + 1 ≡ all_remaining ts
    complete_in-all_remaining n v no_tasks variables h = ground (arith, h)
    complete_in-all_remaining n v (with_task t ts) variables h =
        elim (Bool-cases (ltb n (awaited blank t))) [
          | inl here ↦
              rw here (omega (arith, complete-remaining n v t variables (ground (arith, here))))
          | inr there ↦ rw there (
              omega (
                arith,
                complete_in-all_remaining (n - awaited blank t) v ts variables
                    (ground (arith, there, h)),
              ))
        ]
