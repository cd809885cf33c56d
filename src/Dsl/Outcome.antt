-- ===== src/Dsl/Outcome.antt =====
-- dsl/workflow.py: a run whose activities may fail. Nothing catches the error of an activity:
-- asyncio.gather raises it at once, though the other branches go on, and so does each statement up
-- to `run`, which ends the workflow and with it the other branches.
use samples_python.Base.{ℕ, Option, none, some, List, [], ◌∷◌, if◌then◌else◌, ltb}
use samples_python.Base.Text.{Text}
use samples_python.Dsl.{
  Statement, Task, finished, awaiting, in_sequence, in_parallel, Variables, start, awaited,
  complete,
}

pub data Outcome (Value : Type 0) : Type 0 where
  returns : List (Text × Value) → Outcome Value
  raises : Outcome Value
  waits : Task Value → List (Text × Value) → Outcome Value

module _ {Value : Type 0} (blank : Value) where
  abbrev pub so_far : Task Value → Variables blank → Outcome Value
  so_far finished variables = returns variables
  so_far (awaiting name args result) variables = waits (awaiting name args result) variables
  so_far (in_sequence t ss) variables = waits (in_sequence t ss) variables
  so_far (in_parallel ts) variables = waits (in_parallel ts) variables

  -- Activities answer with a value or fail.
  unfoldable pub go_on : List (ℕ × Option Value) → Task Value → Variables blank → Outcome Value
  go_on [] t variables = so_far t variables
  go_on ((n, some v) ∷ answers) t variables =
      let (t', variables') = complete blank n v t variables in go_on answers t' variables'
  go_on ((n, none) ∷ answers) t variables =
      let rest = go_on answers t variables in if ltb n (awaited blank t) then raises else rest

  -- `run`, where activities may fail
  unfoldable pub run_with_failures :
      Statement → Variables blank → List (ℕ × Option Value) → Outcome Value
  unfolding go_on
  run_with_failures root variables answers = go_on answers (start blank variables root) variables
