-- ===== src/Dsl/Evaluate.antt =====
-- An interpreter that calls the activities of a program one after another, and the answers that a
-- run gets from them.
use samples_python.Base.{ℕ, zero, suc, Option, none, some, List, [], ◌∷◌}
use samples_python.Base.Text.{Text}
use samples_python.Dsl.{
  Statement, activity_statement, sequence_statement, parallel_statement, Statements, no_statements,
  and_then, Task, finished, awaiting, in_sequence, in_parallel, Variables, continue_with, load,
  assign, start_sequence, complete,
}
use samples_python.Dsl.Outcome.{Outcome, returns, raises, go_on}

unfoldable mutual
  pub IsSequential : Statement → Type 0
  IsSequential (activity_statement a) = Unit {0}
  IsSequential (sequence_statement ss) = AllSequential ss
  IsSequential (parallel_statement ss) = ⊥

  pub AllSequential : Statements → Type 0
  AllSequential no_statements = Unit {0}
  AllSequential (and_then s ss) = IsSequential s × AllSequential ss

module _ {Value : Type 0} (blank : Value) (activity : Text → List Value → Option Value) where
  abbrev pub then_all :
      Option (Variables blank)
      → (Variables blank → Option (Variables blank))
      → Option (Variables blank)
  then_all none rest = none
  then_all (some variables) rest = rest variables

  abbrev pub assigned : Option Text → Variables blank → Option Value → Option (Variables blank)
  assigned result variables none = none
  assigned result variables (some v) = some (assign blank result v variables)

  -- The variables after a statement, or `none` where an activity fails.
  unfoldable mutual
    pub evaluate : Statement → Variables blank → Option (Variables blank)
    evaluate (activity_statement a) variables =
        assigned a.result variables (activity a.name (load blank a.arguments variables))
    evaluate (sequence_statement ss) variables = evaluate_all ss variables
    evaluate (parallel_statement ss) variables = none

    pub evaluate_all : Statements → Variables blank → Option (Variables blank)
    evaluate_all no_statements variables = some variables
    evaluate_all (and_then s ss) variables =
        then_all (evaluate s variables) (λ variables'. evaluate_all ss variables')

  -- The activity under way, where there is one outside parallel branches.
  abbrev pub asked : Task Value → Option (Text × List Value)
  asked finished = none
  asked (awaiting name args result) = some (name, args)
  asked (in_sequence t ss) = asked t
  asked (in_parallel ts) = none

  abbrev pub answered : Option (Text × List Value) → Option Value
  answered none = none
  answered (some (name, args)) = activity name args

  abbrev pub answer_with :
      Option Value → (Value → List (ℕ × Option Value)) → List (ℕ × Option Value)
  answer_with none later = (0, none) ∷ []
  answer_with (some v) later = (0, some v) ∷ later v

  -- What `activity` answers to a program, n times.
  unfoldable pub answers : ℕ → Task Value → Variables blank → List (ℕ × Option Value)
  answers zero t variables = []
  answers (suc n) t variables =
      answer_with (answered (asked t))
        (λ v. let (t', variables') = complete blank 0 v t variables in answers n t' variables')

  abbrev pub outcome_of : Option (Variables blank) → Outcome Value
  outcome_of none = raises
  outcome_of (some variables) = returns variables

  -- A task with the statements that come after it.
  abbrev pub within : Variables blank → Task Value → List Statements → Task Value
  within variables t [] = t
  within variables t (ss ∷ stack) =
      within variables (continue_with blank t ss (start_sequence blank variables ss)) stack

  abbrev pub going_on : ℕ → Option (Variables blank) → List Statements → Outcome Value
  going_on n none stack = raises
  going_on n (some variables) stack =
      let t = within variables finished stack in go_on blank (answers n t variables) t variables

  -- A task that waits for an activity, and for nothing else.
  pub data Waits (name : Text) (args : List Value) (result : Option Text)
      : Task Value → Type 0 where
    here : Waits name args result (awaiting name args result)
    inside :
        (t : Task Value) (ss : Statements)
        → Waits name args result t
        → Waits name args result (in_sequence t ss)
