-- ===== src/Dsl.antt =====
-- dsl/workflow.py: an interpreter of activities in sequence and in parallel over named variables.
-- A program under way is a tree of what waits for an activity and what comes after it; a turn is
-- the completion of one activity, carried on up to the next awaits.
pub mod Count
pub mod Progress
pub mod Outcome
pub mod Evaluate
pub mod Sequential
mod Tests
use samples_python.Base.{
  ℕ, zero, suc, ◌+◌, ◌-◌, Bool, true, false, ◌&&◌, Option, none, some, List, [], ◌∷◌, if◌then◌else◌,
  ltb, get, set_item,
}
use samples_python.Base.Text.{Text, text_eq}

pub record ActivityInvocation : Type 0 where
  pub name : Text
  pub arguments : List Text
  pub result : Option Text

mutual
  pub data Statement : Type 0 where
    activity_statement : ActivityInvocation → Statement
    sequence_statement parallel_statement : Statements → Statement

  pub data Statements : Type 0 where
    no_statements : Statements
    and_then : Statement → Statements → Statements

-- What is left of a statement that has been started.
mutual
  pub data Task (Value : Type 0) : Type 0 where
    finished : Task Value
    awaiting : (name : Text) (args : List Value) (result : Option Text) → Task Value
    in_sequence : Task Value → Statements → Task Value
    in_parallel : Tasks Value → Task Value

  pub data Tasks (Value : Type 0) : Type 0 where
    no_tasks : Tasks Value
    with_task : Task Value → Tasks Value → Tasks Value

module _ {Value : Type 0} (blank : Value) where
  abbrev pub Variables : Type 0
  Variables = List (Text × Value)

  abbrev or_blank : Option Value → Value
  or_blank none = blank
  or_blank (some v) = v

  -- `[self.variables.get(arg, "") for arg in arguments]`
  unfoldable pub load : List Text → Variables → List Value
  load [] variables = []
  load (arg ∷ arguments) variables = or_blank (get arg variables) ∷ load arguments variables

  -- The rest of a sequence starts as soon as its first element has finished.
  abbrev pub continue_with : Task Value → Statements → (rest : Task Value) → Task Value
  continue_with finished ss rest = rest
  continue_with (awaiting name args result) ss rest = in_sequence (awaiting name args result) ss
  continue_with (in_sequence t ts) ss rest = in_sequence (in_sequence t ts) ss
  continue_with (in_parallel ts) ss rest = in_sequence (in_parallel ts) ss

  abbrev pub is_finished : Task Value → Bool
  is_finished finished = true
  is_finished _ = false

  abbrev pub all_finished : Tasks Value → Bool
  all_finished no_tasks = true
  all_finished (with_task t ts) = is_finished t && all_finished ts

  -- `asyncio.gather` has finished when each branch has.
  abbrev pub gather : Tasks Value → Task Value
  gather ts = if all_finished ts then finished else in_parallel ts

  -- `execute_statement` up to its awaits.
  unfoldable mutual
    pub start : Variables → Statement → Task Value
    start variables (activity_statement activity) =
        awaiting activity.name (load activity.arguments variables) activity.result
    start variables (sequence_statement elements) = start_sequence variables elements
    start variables (parallel_statement branches) = gather (start_parallel variables branches)

    pub start_sequence : Variables → Statements → Task Value
    start_sequence variables no_statements = finished
    start_sequence variables (and_then s ss) =
        continue_with (start variables s) ss (start_sequence variables ss)

    pub start_parallel : Variables → Statements → Tasks Value
    start_parallel variables no_statements = no_tasks
    start_parallel variables (and_then s ss) =
        with_task (start variables s) (start_parallel variables ss)

  -- How many activities are under way.
  unfoldable mutual
    pub awaited : Task Value → ℕ
    awaited finished = 0
    awaited (awaiting name args result) = 1
    awaited (in_sequence t ss) = awaited t
    awaited (in_parallel ts) = all_awaited ts

    pub all_awaited : Tasks Value → ℕ
    all_awaited no_tasks = 0
    all_awaited (with_task t ts) = awaited t + all_awaited ts

  -- `if stmt.activity.result: self.variables[stmt.activity.result] = result`
  unfoldable pub assign : Option Text → Value → Variables → Variables
  assign none v variables = variables
  assign (some []) v variables = variables
  assign (some (c ∷ cs)) v variables = set_item (c ∷ cs) v variables

  -- The activity at place `n`, from the left, among those under way answers with `v`.
  unfoldable mutual
    pub complete : ℕ → Value → Task Value → Variables → Task Value × Variables
    complete n v finished variables = (finished, variables)
    complete n v (awaiting name args result) variables = (finished, assign result v variables)
    complete n v (in_sequence t ss) variables =
        let (t', variables') = complete n v t variables in
        (continue_with t' ss (start_sequence variables' ss), variables')
    complete n v (in_parallel ts) variables =
        let (ts', variables') = complete_in n v ts variables in (gather ts', variables')

    pub complete_in : ℕ → Value → Tasks Value → Variables → Tasks Value × Variables
    complete_in n v no_tasks variables = (no_tasks, variables)
    complete_in n v (with_task t ts) variables =
        let (t', here) = complete n v t variables in
        let (ts', there) = complete_in (n - awaited t) v ts variables in
        if ltb n (awaited t) then (with_task t' ts, here) else (with_task t ts', there)

  -- A run: which activity answers, and with what.
  unfoldable pub run_all : List (ℕ × Value) → Task Value → Variables → Task Value × Variables
  run_all [] t variables = (t, variables)
  run_all ((n, v) ∷ answers) t variables =
      let (t', variables') = complete n v t variables in run_all answers t' variables'

  -- `run`
  unfoldable pub run : Statement → Variables → List (ℕ × Value) → Task Value × Variables
  run root variables answers = run_all answers (start variables root) variables
