-- ===== src/Greeting.antt =====
-- message_passing/introduction/workflows.py: a greeting in a language that updates change, one of
-- them with an activity under a lock. The handler with the lock is cut at the lock and at the
-- activity; those that wait for the lock get it in order. A language is its number.
pub mod Result
mod Tests
use samples_python.Base.{
  ℕ, Bool, true, false, Option, none, some, List, [], ◌∷◌, ◌++◌, ◌&&◌, if◌then◌else◌, nat_eq, get,
  set_item, is_none,
}
use samples_python.Base.Text.{Text}

abbrev pub Language : Type 0
Language = ℕ

-- How the run stands: waiting, or ended with the greeting, `none` for a KeyError.
pub data Outcome : Type 0 where
  waiting : Outcome
  returned : Option Text → Outcome

pub record GreetingWorkflow : Type 0 where
  pub approved_for_release : Bool
  pub approver_name : Option Text
  pub greetings : List (Language × Text)
  pub language : Language
  -- the call that holds the lock, and those that wait for it
  pub holder : Option Language
  pub waiters : List Language
  pub outcome : Outcome

unfoldable pub init : (chinese english : Text) → GreetingWorkflow
init chinese english = record {
  approved_for_release = false;
  approver_name = none;
  greetings = (2, chinese) ∷ (3, english) ∷ [];
  language = 3;
  holder = none;
  waiters = [];
  outcome = waiting;
}

unfoldable pub approve : (name : Text) → GreetingWorkflow → GreetingWorkflow
approve name w = record w { approved_for_release = true; approver_name = some name }

-- With its validator, which refuses a language that has no greeting.
unfoldable pub set_language : Language → GreetingWorkflow → GreetingWorkflow
set_language language w =
    if is_none (get language w.greetings) then w else record w { language = language }

abbrev acquire : Option Language → Language → GreetingWorkflow → GreetingWorkflow
acquire none language w = record w { holder = some language }
acquire (some other) language w = record w { waiters = w.waiters ++ language ∷ [] }

-- `set_language_using_activity`, up to the activity or the lock.
unfoldable pub set_language_using_activity : Language → GreetingWorkflow → GreetingWorkflow
set_language_using_activity language w =
    if is_none (get language w.greetings)
    then acquire w.holder language w
    else record w { language = language }

-- The lock goes to the first call that waits.
abbrev release : List Language → GreetingWorkflow → GreetingWorkflow
release [] w = record w { holder = none }
release (language ∷ languages) w = record w { holder = some language; waiters = languages }

-- The activity answers; no greeting, as a failure of the activity, fails the update.
unfoldable pub greeting_arrives :
    Option Language → Option Text → GreetingWorkflow → GreetingWorkflow
greeting_arrives none greeting w = w
greeting_arrives (some language) none w = release w.waiters w
greeting_arrives (some language) (some greeting) w =
    release w.waiters
      (record w { greetings = set_item language greeting w.greetings; language = language })

abbrev pub all_handlers_finished : Option Language → Bool
all_handlers_finished none = true
all_handlers_finished (some language) = false

-- `run` from its await
unfoldable pub run : GreetingWorkflow → GreetingWorkflow
run w =
    if w.approved_for_release && all_handlers_finished w.holder
    then record w { outcome = returned (get w.language w.greetings) }
    else w

pub data Event : Type 0 where
  approves : (name : Text) → Event
  sets sets_using_activity : Language → Event
  answers : Option Text → Event
  condition_holds : Event

abbrev pub turn : GreetingWorkflow → Event → GreetingWorkflow
turn w (approves name) = approve name w
turn w (sets language) = set_language language w
turn w (sets_using_activity language) = set_language_using_activity language w
turn w (answers greeting) = greeting_arrives w.holder greeting w
turn w condition_holds = run w

abbrev step_in : Outcome → GreetingWorkflow → Event → GreetingWorkflow
step_in waiting w e = turn w e
step_in (returned g) w e = w

unfoldable pub step : GreetingWorkflow → Event → GreetingWorkflow
step w e = step_in w.outcome w e

unfoldable pub run_events : GreetingWorkflow → List Event → GreetingWorkflow
unfolding step
run_events w [] = w
run_events w (e ∷ es) = run_events (step w e) es
