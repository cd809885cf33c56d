-- ===== src/Dsl/Tests.antt =====
-- Programs at concrete inputs.
use samples_python.Base.{
  ℕ, ◌<◌, ◌+◌, Option, none, some, List, [], ◌∷◌, ◌≡◌, refl, arith, get, set_item,
}
use samples_python.Base.Text.{Text, text, text_eq, text_beq}
use samples_python.Dsl.{
  Statement, activity_statement, sequence_statement, parallel_statement, no_statements, and_then,
  Variables, finished, load, start, complete, awaited, assign, run_all, run,
}
use samples_python.Dsl.Count.{count}
use samples_python.Dsl.Outcome.{raises, go_on, run_with_failures}
use samples_python.Dsl.Evaluate.{evaluate, answers as given, outcome_of, IsSequential}
use samples_python.Dsl.Sequential.{run_with_failures-evaluate}
use samples_python.Dsl.Progress.{Answers, run-count}

abbrev blank : ℕ
blank = 0

abbrev answers : List (ℕ × ℕ)
answers = (0, 6) ∷ (1, 7) ∷ []

abbrev variables : Variables blank
variables = (text "arg", 5) ∷ []

-- `arg` goes to `one`, whose result goes to `two` and to `three` in parallel.
abbrev program : Statement
program = sequence_statement (
    and_then
      (activity_statement
        (record { name = text "one"; arguments = text "arg" ∷ []; result = some (text "r") }))
      (and_then
        (parallel_statement (
          and_then
            (activity_statement
              (record { name = text "two"; arguments = text "r" ∷ []; result = some (text "s") }))
            (and_then
              (activity_statement
                (record { name = text "three"; arguments = text "r" ∷ []; result = none }))
              no_statements)))
        no_statements))

run_test :
    run blank program variables ((0, 6) ∷ (1, 7) ∷ (0, 8) ∷ [])
    ≡ (finished, (text "arg", 5) ∷ (text "r", 6) ∷ (text "s", 8) ∷ [])
unfolding run run_all start complete awaited assign load get set_item text_beq
run_test = refl

run-count_example : 0 < awaited blank (run blank program variables answers).0
unfolding Answers start complete awaited run_all run load assign get set_item text_beq count
run-count_example =
    (run-count blank program variables answers (ground arith, (ground arith, tt))).2 (ground arith)

-- The activity `two` fails while `three` is under way.
failure_test :
    run_with_failures blank program variables ((0, some 6) ∷ (0, none) ∷ (0, some 8) ∷ []) ≡ raises
unfolding run_with_failures go_on start complete awaited assign load get set_item text_beq
failure_test = refl

-- `arg` goes to `one`, whose result goes to `two`.
abbrev sequential : Statement
sequential = sequence_statement (
    and_then
      (activity_statement
        (record { name = text "one"; arguments = text "arg" ∷ []; result = some (text "r") }))
      (and_then
        (activity_statement
          (record { name = text "two"; arguments = text "r" ∷ []; result = some (text "s") }))
        no_statements))

abbrev double : Text → List ℕ → Option ℕ
double name [] = none
double name (n ∷ ns) = some (n + n)

evaluate_test :
    evaluate blank double sequential variables
    ≡ some ((text "arg", 5) ∷ (text "r", 10) ∷ (text "s", 20) ∷ [])
unfolding evaluate assign load get set_item text_beq
evaluate_test = refl

run_with_failures-evaluate_example :
    run_with_failures blank sequential variables
      (given blank double (count sequential) (start blank variables sequential) variables)
    ≡ outcome_of blank double (evaluate blank double sequential variables)
unfolding IsSequential
run_with_failures-evaluate_example =
    run_with_failures-evaluate blank double sequential variables (tt, (tt, tt))
