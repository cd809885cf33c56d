-- ===== src/Dsl/Sequential.antt =====
-- A program without parallel branches, against an interpreter that calls each activity.
use samples_python.Base.{
  ℕ, suc, ◌+◌, Option, none, some, List, [], ◌∷◌, ◌≡◌, refl, ◌∙◌, ap, inl, inr, arith, Option-cases,
}
use samples_python.Base.Text.{Text}
use samples_python.Dsl.{
  Statement, activity_statement, sequence_statement, parallel_statement, Statements, no_statements,
  and_then, Task, finished, awaiting, in_sequence, in_parallel, Variables, continue_with, load,
  start, start_sequence, awaited, complete,
}
use samples_python.Dsl.Count.{count, count_all}
use samples_python.Dsl.Outcome.{raises, go_on, run_with_failures}
use samples_python.Dsl.Evaluate.{
  IsSequential, AllSequential, assigned, evaluate, evaluate_all, asked, answered, answer_with,
  answers, outcome_of, within, going_on, Waits,
}

module _ {Value : Type 0} (blank : Value) (activity : Text → List Value → Option Value) where
  module _ (name : Text) (args : List Value) (result : Option Text) where
    Waits-continue_with :
        (t : Task Value) (ss : Statements) (rest : Task Value)
        → Waits blank activity name args result t
        → continue_with blank t ss rest ≡ in_sequence t ss
    Waits-continue_with finished ss rest w = elim w [ ]
    Waits-continue_with (in_parallel ts) ss rest w = elim w [ ]
    Waits-continue_with (awaiting name args result) ss rest Waits.here = refl
    Waits-continue_with (in_sequence t us) ss rest (Waits.inside t' us' w) = refl

    Waits-within :
        (t : Task Value) (stack : List Statements) (variables : Variables blank)
        → Waits blank activity name args result t
        → Waits blank activity name args result (within blank activity variables t stack)
    Waits-within t [] variables w = w
    Waits-within t (ss ∷ stack) variables w =
        rw (Waits-continue_with t ss (start_sequence blank variables ss) w)
          (Waits-within (in_sequence t ss) stack variables (Waits.inside t ss w))

    Waits-asked :
        (t : Task Value)
        → Waits blank activity name args result t
        → asked blank activity t ≡ some (name, args)
    Waits-asked finished w = elim w [ ]
    Waits-asked (in_parallel ts) w = elim w [ ]
    Waits-asked (awaiting name args result) Waits.here = refl
    Waits-asked (in_sequence t ss) (Waits.inside t' ss' w) = Waits-asked t w

    Waits-awaited : (t : Task Value) → Waits blank activity name args result t → awaited blank t ≡ 1
    unfolding awaited
    Waits-awaited finished w = elim w [ ]
    Waits-awaited (in_parallel ts) w = elim w [ ]
    Waits-awaited (awaiting name args result) Waits.here = refl
    Waits-awaited (in_sequence t ss) (Waits.inside t' ss' w) = Waits-awaited t w

    complete-within :
        (v : Value) (t : Task Value) (stack : List Statements) (variables : Variables blank)
        → Waits blank activity name args result t
        → let (t', variables') = complete blank 0 v t variables in
          complete blank 0 v (within blank activity variables t stack) variables
          ≡ (within blank activity variables' t' stack, variables')
    unfolding complete
    complete-within v t [] variables w = refl
    complete-within v t (ss ∷ stack) variables w =
        rw (Waits-continue_with t ss (start_sequence blank variables ss) w)
          (complete-within v (in_sequence t ss) stack variables (Waits.inside t ss w))

  go_on-answers :
      (n : ℕ) (t : Task Value) (variables : Variables blank) (o : Option Value)
      → awaited blank t ≡ 1
      → answered blank activity (asked blank activity t) ≡ o
      → go_on blank (answers blank activity (suc n) t variables) t variables
        ≡ go_on blank
            (answer_with blank activity o (λ v.
              answers blank activity n
                (complete blank 0 v t variables).0
                (complete blank 0 v t variables).1))
            t
            variables
  unfolding answers
  go_on-answers n t variables o one e =
      ap
        (λ a.
          go_on blank
            (answer_with blank activity a (λ v.
              answers blank activity n (complete blank 0 v t variables).0
                (complete blank 0 v t variables).1))
            t variables)
        e

  go_on-failed :
      (t : Task Value) (variables : Variables blank)
      → awaited blank t ≡ 1
      → go_on blank ((0, none) ∷ []) t variables ≡ raises
  unfolding go_on
  go_on-failed t variables one = rw one refl

  go_on-activity :
      (n : ℕ) (name : Text) (args : List Value) (result : Option Text) (stack : List Statements)
      (variables : Variables blank) (o : Option Value)
      → activity name args ≡ o
      → let t = within blank activity variables (awaiting name args result) stack in
        go_on blank (answers blank activity (suc n) t variables) t variables
        ≡ going_on blank activity n (assigned blank activity result variables o) stack
  unfolding go_on complete
  go_on-activity n name args result stack variables o e =
      let w =
        Waits-within name args result (awaiting name args result) stack variables Waits.here in
      let t = within blank activity variables (awaiting name args result) stack in
      let one = Waits-awaited name args result t w in
      go_on-answers n t variables o one
        (ap (answered blank activity) (Waits-asked name args result t w) ∙ e)
      ∙ go o one
    where
      go :
          (a : Option Value)
          → awaited blank (within blank activity variables (awaiting name args result) stack) ≡ 1
          → go_on blank
              (answer_with blank activity a (λ v.
                answers blank activity n
                  (complete blank 0 v
                    (within blank activity variables (awaiting name args result) stack)
                    variables).0
                  (complete blank 0 v
                    (within blank activity variables (awaiting name args result) stack)
                    variables).1))
              (within blank activity variables (awaiting name args result) stack)
              variables
            ≡ going_on blank activity n (assigned blank activity result variables a) stack
      go none one =
          go_on-failed (within blank activity variables (awaiting name args result) stack) variables
            one
      go (some v) one =
          ap
            (λ (r : Task Value × Variables blank).
              go_on blank (answers blank activity n r.0 r.1) r.0 r.1)
            (complete-within name args result v (awaiting name args result) stack variables
              Waits.here)

  mutual
    unfolding start count evaluate IsSequential

    go_on-evaluate :
        (s : Statement) (n : ℕ) (stack : List Statements) (variables : Variables blank)
        → IsSequential s
        → let t = within blank activity variables (start blank variables s) stack in
          go_on blank (answers blank activity (count s + n) t variables) t variables
          ≡ going_on blank activity n (evaluate blank activity s variables) stack
    go_on-evaluate (activity_statement a) n stack variables h =
        let args = load blank a.arguments variables in
        let t = within blank activity variables (awaiting a.name args a.result) stack in
        let next : 1 + n ≡ suc n = omega arith in
        ap (λ k. go_on blank (answers blank activity k t variables) t variables) next
        ∙ go_on-activity n a.name args a.result stack variables (activity a.name args) refl
    go_on-evaluate (sequence_statement ss) n stack variables h =
        go_on-evaluate_all ss n stack variables h
    go_on-evaluate (parallel_statement ss) n stack variables h = absurd h

    go_on-evaluate_all :
        (ss : Statements) (n : ℕ) (stack : List Statements) (variables : Variables blank)
        → AllSequential ss
        → let t = within blank activity variables (start_sequence blank variables ss) stack in
          go_on blank (answers blank activity (count_all ss + n) t variables) t variables
          ≡ going_on blank activity n (evaluate_all blank activity ss variables) stack
    go_on-evaluate_all no_statements n stack variables h =
        let t = within blank activity variables finished stack in
        let next : 0 + n ≡ n = omega arith in
        ap (λ k. go_on blank (answers blank activity k t variables) t variables) next
    go_on-evaluate_all (and_then s ss) n stack variables h =
        let t = within blank activity variables (start blank variables s) (ss ∷ stack) in
        let split : count s + count_all ss + n ≡ count s + (count_all ss + n) = omega arith in
        ap (λ k. go_on blank (answers blank activity k t variables) t variables) split
        ∙ go_on-evaluate s (count_all ss + n) (ss ∷ stack) variables h.0
        ∙ elim (Option-cases (evaluate blank activity s variables)) [
          | inl raised ↦ rw raised refl
          | inr (variables', done) ↦ rw done (go_on-evaluate_all ss n stack variables' h.1)
        ]

  going_on-outcome_of :
      (o : Option (Variables blank)) → going_on blank activity 0 o [] ≡ outcome_of blank activity o
  unfolding go_on answers
  going_on-outcome_of none = refl
  going_on-outcome_of (some variables) = refl

  -- A program without parallel branches, each of whose activities is answered in its turn by
  -- `activity`, or fails, does what the interpreter that calls the activities one after another
  -- does: it returns the same variables, or raises where an activity fails, and never waits for
  -- more answers than it has activities.
  pub run_with_failures-evaluate :
      (root : Statement) (variables : Variables blank)
      → IsSequential root
      → run_with_failures blank root variables
          (answers blank activity (count root) (start blank variables root) variables)
        ≡ outcome_of blank activity (evaluate blank activity root variables)
  unfolding run_with_failures
  run_with_failures-evaluate root variables h =
      let t = start blank variables root in
      let exact : count root ≡ count root + 0 = omega arith in
      ap (λ k. go_on blank (answers blank activity k t variables) t variables) exact
      ∙ go_on-evaluate root 0 [] variables h
      ∙ going_on-outcome_of (evaluate blank activity root variables)
