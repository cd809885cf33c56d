-- ===== src/Waiting.antt =====
-- message_passing/waiting_for_handlers/workflows.py: a workflow that lets its update handlers finish
-- before it ends, however it ends. `run` is cut at its awaits, a handler at its activity.
pub mod Finished
mod Tests
use samples_python.Base.{ℕ, zero, suc, Bool, true, false, ◌&&◌, List, [], ◌∷◌, ◌++◌, if◌then◌else◌}

pub data ExitType : Type 0 where
  success failure cancellation : ExitType

-- An ApplicationError, or CancelledError.
pub data Exception : Type 0 where
  application_error cancelled_error : Exception

-- A call of `my_update`: at its activity, or answered with its result or the activity's error.
pub data Handler : Type 0 where
  at_activity update_result activity_error : Handler

-- `run`: at one of its awaits, or ended. `returning` and `raising` wait for the handlers.
pub data Main : Type 0 where
  waiting_for_start blocked returning returned : Main
  raising raised : Exception → Main

pub record Workflow : Type 0 where
  pub exit_type : ExitType
  pub update_started : Bool
  pub handlers : List Handler
  pub main : Main

unfoldable pub init : ExitType → Workflow
init exit_type = record {
  exit_type = exit_type;
  update_started = false;
  handlers = [];
  main = waiting_for_start;
}

abbrev is_answered : Handler → Bool
is_answered at_activity = false
is_answered update_result = true
is_answered activity_error = true

unfoldable pub all_handlers_finished : List Handler → Bool
all_handlers_finished [] = true
all_handlers_finished (h ∷ hs) = is_answered h && all_handlers_finished hs

-- `_my_workflow_application_logic`, once an update has started
abbrev pub application_logic : ExitType → Main
application_logic success = returning
application_logic failure = raising application_error
application_logic cancellation = blocked

-- `run` goes on from a condition that holds.
abbrev pub proceed : Main → Workflow → Main
proceed waiting_for_start w =
    if w.update_started then application_logic w.exit_type else waiting_for_start
proceed blocked w = blocked
proceed returning w = if all_handlers_finished w.handlers then returned else returning
proceed returned w = returned
proceed (raising e) w = if all_handlers_finished w.handlers then raised e else raising e
proceed (raised e) w = raised e

-- CancelledError at the await where `run` is: caught within `try`, and not within `except`.
abbrev pub cancel : Main → Main
cancel waiting_for_start = raising cancelled_error
cancel blocked = raising cancelled_error
cancel returning = raising cancelled_error
cancel returned = returned
cancel (raising e) = raised cancelled_error
cancel (raised e) = raised e

abbrev answer : Bool → Handler → Handler
answer true at_activity = update_result
answer false at_activity = activity_error
answer ok update_result = update_result
answer ok activity_error = activity_error

-- The activity of the n-th handler ends.
abbrev pub activity_ends : Bool → ℕ → List Handler → List Handler
activity_ends ok n [] = []
activity_ends ok zero (h ∷ hs) = answer ok h ∷ hs
activity_ends ok (suc n) (h ∷ hs) = h ∷ activity_ends ok n hs

pub data Event : Type 0 where
  my_update run_proceeds cancel_requested : Event
  handler_activity : (ok : Bool) (n : ℕ) → Event

unfoldable pub turn : Workflow → Event → Workflow
turn w my_update = record w { update_started = true; handlers = w.handlers ++ at_activity ∷ [] }
turn w run_proceeds = record w { main = proceed w.main w }
turn w cancel_requested = record w { main = cancel w.main }
turn w (handler_activity ok n) = record w { handlers = activity_ends ok n w.handlers }

abbrev pub is_open : Main → Bool
is_open returned = false
is_open (raised e) = false
is_open waiting_for_start = true
is_open blocked = true
is_open returning = true
is_open (raising e) = true

-- Nothing reaches a workflow that has ended.
unfoldable pub step : Workflow → Event → Workflow
unfolding turn
step w e = if is_open w.main then turn w e else w

unfoldable pub run_events : Workflow → List Event → Workflow
unfolding step
run_events w [] = w
run_events w (e ∷ es) = run_events (step w e) es
