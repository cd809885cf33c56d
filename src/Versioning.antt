-- ===== src/Versioning.antt =====
-- worker_versioning/workflows.py: four versions of workflows that act on queued signals. A run is
-- cut at `wait_condition` and at its activities.
pub mod Lockstep
mod Tests
use samples_python.Base.{Bool, true, false, List, [], ◌∷◌, ◌++◌, if◌then◌else◌, ◌==◌}
use samples_python.Base.Text.{Text, text, text_eq}

pub data Activity : Type 0 where
  some_activity : (called_by : Text) → Activity
  some_incompatible_activity : (called_by more_data : Text) → Activity

-- At the first activity, at `wait_condition`, at an activity of the loop or after it, or ended.
pub data Phase : Type 0 where
  opening waiting acting concluding completed : Phase

pub record Workflow : Type 0 where
  pub signals : List Text
  pub phase : Phase
  -- the activities that were started, in order
  pub started : List Activity

abbrev pub do_next_signal : Text → Workflow → Workflow
do_next_signal signal w = record w { signals = w.signals ++ signal ∷ [] }

abbrev pub execute_activity : Activity → Phase → Workflow → Workflow
execute_activity activity phase w = record w { phase = phase; started = w.started ++ activity ∷ [] }

-- The start of a run that waits for signals at once.
abbrev pub new_workflow : Workflow
new_workflow = record { signals = []; phase = waiting; started = [] }

-- A class of workflow: its start, what it does with a signal, and where an activity leads.
pub record Definition : Type 0 where
  pub first : Workflow
  pub on_signal : (signal : Text) → Workflow → Workflow

unfoldable pub auto_upgrading_v1 : Definition
auto_upgrading_v1 = record {
  first = new_workflow;
  on_signal = λ signal w.
      if signal == text "do-activity"
      then execute_activity (some_activity (text "v1")) acting w
      else record w { phase = completed };
}

-- `patched` is what `workflow.patched("DifferentActivity")` answers.
unfoldable pub auto_upgrading_v1b : (patched : Bool) → Definition
auto_upgrading_v1b patched = record {
  first = new_workflow;
  on_signal = λ signal w.
      if signal == text "do-activity"
      then if patched
        then execute_activity (some_incompatible_activity (text "v1b") (text "hello!")) acting w
        else execute_activity (some_activity (text "v1b")) acting w
      else record w { phase = completed };
}

unfoldable pub pinned_v1 : Definition
pinned_v1 = record {
  first = new_workflow;
  on_signal = λ signal w.
      if signal == text "conclude"
      then execute_activity (some_activity (text "Pinned-v1")) concluding w
      else w;
}

unfoldable pub pinned_v2 : Definition
pinned_v2 = record {
  first = execute_activity (some_activity (text "Pinned-v2")) opening new_workflow;
  on_signal = λ signal w.
      if signal == text "conclude"
      then execute_activity (some_incompatible_activity (text "Pinned-v2") (text "hi")) concluding w
      else w;
}

-- `wait_condition` ends if there is a signal, and the first is taken.
unfoldable pub take_signal : Definition → List Text → Workflow → Workflow
take_signal d [] w = w
take_signal d (signal ∷ signals) w = d.on_signal signal (record w { signals = signals })

unfoldable pub wakes : Definition → Phase → Workflow → Workflow
unfolding take_signal
wakes d waiting w = take_signal d w.signals w
wakes d _ w = w

-- The activity ends.
unfoldable pub activity_ends : Phase → Workflow → Workflow
activity_ends opening w = record w { phase = waiting }
activity_ends acting w = record w { phase = waiting }
activity_ends concluding w = record w { phase = completed }
activity_ends _ w = w

pub data Event : Type 0 where
  signalled : Text → Event
  proceeds activity_done : Event

unfoldable pub step : Definition → Workflow → Event → Workflow
unfolding wakes activity_ends
step d w (signalled signal) = do_next_signal signal w
step d w proceeds = wakes d w.phase w
step d w activity_done = activity_ends w.phase w

unfoldable pub run_events : Definition → Workflow → List Event → Workflow
unfolding step
run_events d w [] = w
run_events d w (e ∷ es) = run_events d (step d w e) es
