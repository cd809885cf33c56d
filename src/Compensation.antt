-- ===== src/Compensation.antt =====
-- message_passing/waiting_for_handlers_and_compensation/workflows.py: a workflow that lets its
-- update handlers finish before it ends, and compensates when it fails or is cancelled. The run and
-- the handlers are cut at their awaits; activities succeed or fail by events.
pub mod Invariant
mod Tests
use samples_python.Base.{ℕ, zero, suc, Bool, true, false, ◌&&◌, List, [], ◌∷◌, ◌++◌, if◌then◌else◌}

pub data ExitType : Type 0 where
  success failure cancellation : ExitType

-- A failure of the SDK, CancelledError, or another exception.
pub data Exception : Type 0 where
  failure_error cancelled_error other_error : Exception

abbrev pub is_workflow_exit_exception : Exception → Bool
is_workflow_exit_exception failure_error = true
is_workflow_exit_exception cancelled_error = true
is_workflow_exit_exception other_error = false

-- The future `workflow_exit`.
pub data Exit : Type 0 where
  pending result : Exit
  exception : Exception → Exit

pub data Response : Type 0 where
  update_result compensation_failed : Response
  raised_to_caller : Exception → Response

pub data UpdateTask : Type 0 where
  at_activity succeeded : UpdateTask
  raised : Exception → UpdateTask

-- A call of `my_update`: at `workflow.wait`, at the compensation, or answered.
pub data Handler : Type 0 where
  racing : UpdateTask → Handler
  compensating : Exception → Handler
  answered : Response → Handler

-- `run`: at one of its awaits, or ended. `task_failed` is an exception that fails the workflow
-- task in place of the workflow.
pub data Main : Type 0 where
  waiting_for_start blocked returning returned task_failed : Main
  failing undoing ended : Exception → Main

pub record Workflow : Type 0 where
  pub exit_type : ExitType
  pub workflow_exit : Exit
  pub update_started : Bool
  pub update_compensation_done : Bool
  pub workflow_compensation_done : Bool
  pub main : Main
  pub handlers : List Handler

unfoldable pub init : ExitType → Workflow
init exit_type = record {
  exit_type = exit_type;
  workflow_exit = pending;
  update_started = false;
  update_compensation_done = false;
  workflow_compensation_done = false;
  main = waiting_for_start;
  handlers = [];
}

abbrev pub is_answered : Handler → Bool
is_answered (answered r) = true
is_answered _ = false

unfoldable pub all_handlers_finished : List Handler → Bool
all_handlers_finished [] = true
all_handlers_finished (h ∷ hs) = is_answered h && all_handlers_finished hs

-- `except BaseException` around the application logic; the future takes only one value.
abbrev caught : Exception → Exit → Workflow → Workflow
caught e pending w =
    if is_workflow_exit_exception e
    then record w { workflow_exit = exception e; main = failing e }
    else record w { main = task_failed }
caught e result w = record w { main = task_failed }
caught e (exception x) w = record w { main = task_failed }

abbrev application_logic : ExitType → Workflow → Workflow
application_logic success w = record w { workflow_exit = result; main = returning }
application_logic failure w = caught failure_error w.workflow_exit w
application_logic cancellation w = record w { main = blocked }

-- `run` goes on from a condition.
abbrev proceed : Main → Workflow → Workflow
proceed waiting_for_start w = if w.update_started then application_logic w.exit_type w else w
proceed returning w = if all_handlers_finished w.handlers then record w { main = returned } else w
proceed (failing e) w =
    if all_handlers_finished w.handlers then record w { main = undoing e } else w
proceed _ w = w

-- The activity of `workflow_compensation` ends.
abbrev compensate : Bool → Main → Workflow → Workflow
compensate true (undoing e) w = record w {
  update_compensation_done = true;
  workflow_compensation_done = true;
  main = ended e;
}
compensate false (undoing e) w = record w { main = ended failure_error }
compensate _ _ w = w

-- CancelledError at the await where `run` is.
abbrev cancel : Main → Workflow → Workflow
cancel waiting_for_start w = caught cancelled_error w.workflow_exit w
cancel blocked w = caught cancelled_error w.workflow_exit w
cancel returning w = caught cancelled_error w.workflow_exit w
cancel (failing e) w = record w { main = ended cancelled_error }
cancel (undoing e) w = record w { main = ended cancelled_error }
cancel _ w = w

-- A handler goes on from `workflow.wait` with FIRST_EXCEPTION: a future has raised, or both are
-- done.
abbrev pub after_wait : UpdateTask → Exit → Handler → Handler
after_wait (raised e) exit h =
    if is_workflow_exit_exception e then compensating e else answered (raised_to_caller e)
after_wait succeeded pending h = h
after_wait succeeded result h = answered update_result
after_wait succeeded (exception x) h = answered update_result
after_wait at_activity (exception x) h = compensating failure_error
after_wait at_activity pending h = h
after_wait at_activity result h = h

unfoldable pub handler_proceeds : Exit → Handler → Handler
handler_proceeds exit (racing task) = after_wait task exit (racing task)
handler_proceeds exit (compensating e) = compensating e
handler_proceeds exit (answered r) = answered r

-- The activity of a handler's update task, or of its compensation, ends.
unfoldable pub activity_ends : Bool → Handler → Handler
activity_ends true (racing at_activity) = racing succeeded
activity_ends false (racing at_activity) = racing (raised failure_error)
activity_ends true (compensating e) = answered (raised_to_caller e)
activity_ends false (compensating e) = answered compensation_failed
activity_ends ok h = h

abbrev is_compensating : Handler → Bool
is_compensating (compensating e) = true
is_compensating _ = false

abbrev pub at : ℕ → (Handler → Handler) → List Handler → List Handler
at n f [] = []
at zero f (h ∷ hs) = f h ∷ hs
at (suc n) f (h ∷ hs) = h ∷ at n f hs

abbrev compensates : ℕ → List Handler → Bool
compensates n [] = false
compensates zero (h ∷ hs) = is_compensating h
compensates (suc n) (h ∷ hs) = compensates n hs

pub data Event : Type 0 where
  update run_proceeds cancel_requested : Event
  handler_goes_on : (n : ℕ) → Event
  handler_activity : (ok : Bool) (n : ℕ) → Event
  compensation : (ok : Bool) → Event

abbrev pub is_open : Main → Bool
is_open returned = false
is_open (ended e) = false
is_open task_failed = false
is_open _ = true

unfoldable pub turn : Workflow → Event → Workflow
unfolding handler_proceeds activity_ends
turn w update = record w { update_started = true; handlers = w.handlers ++ racing at_activity ∷ [] }
turn w run_proceeds = proceed w.main w
turn w cancel_requested = cancel w.main w
turn w (handler_goes_on n) = record w {
  handlers = at n (handler_proceeds w.workflow_exit) w.handlers;
}
turn w (handler_activity ok n) = record w {
  update_compensation_done =
      if ok && compensates n w.handlers then true else w.update_compensation_done;
  handlers = at n (activity_ends ok) w.handlers;
}
turn w (compensation ok) = compensate ok w.main w

unfoldable pub step : Workflow → Event → Workflow
unfolding turn
step w e = if is_open w.main then turn w e else w

unfoldable pub run_events : Workflow → List Event → Workflow
unfolding step
run_events w [] = w
run_events w (e ∷ es) = run_events (step w e) es
