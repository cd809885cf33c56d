-- ===== src/Window/Tests.antt =====
-- Runs of the sliding window and of the batch at concrete inputs.
use samples_python.Base.{
  ℕ, ◌+◌, ◌-◌, ◌<◌, none, some, List, [], ◌∷◌, ◌≡◌, refl, arith, contains, add, remove, length, All,
}
use samples_python.Window.{
  range_from, SlidingWindowWorkflowInput, get_records, load, run, handle_completion_signal, execute,
  continue_as_new, continue_as_new_or_complete, outcome, Event, executes, completes, step,
  run_events, sorted, handle_state_query,
}
use samples_python.Window.Invariant.{IsCounted, InputIsCounted, run-IsCounted, step-IsCounted}
use samples_python.Window.Result.{Chain, last, more, Chain-result}
use samples_python.Window.Batch
use samples_python.Window.Batch.{
  ProcessBatchWorkflowInput, divide_into_partitions, increment_first, children, raised,
  child_inputs, sum,
}
use samples_python.Window.Batch.Sum.{one_ended, all_ended, run-sum}
use samples_python.Window.Batch.Cover.{
  Even, Covers, windows, divide_into_partitions_cases, run_cases,
}

-- Three records in pages of two.
abbrev first_input : SlidingWindowWorkflowInput
first_input = record {
  page_size = 2;
  sliding_window_size = 2;
  offset = 0;
  maximum_offset = 3;
  progress = 0;
  current_records = none;
}

abbrev second_input : SlidingWindowWorkflowInput
second_input = record {
  page_size = 2;
  sliding_window_size = 2;
  offset = 2;
  maximum_offset = 3;
  progress = 0;
  current_records = some (0 ∷ 1 ∷ []);
}

first_input-IsCounted : InputIsCounted 0 first_input
first_input-IsCounted = record {
  counted = refl;
  below = tt;
  distinct = tt;
  within = omega arith;
  window = omega arith;
}

page_loaded : load 3 first_input ≡ some (0 ∷ 1 ∷ [])
unfolding load get_records
page_loaded = refl

abbrev first_events : List Event
first_events = executes ∷ executes ∷ executes ∷ executes ∷ []

first_continues :
    outcome (run_events (run first_input (0 ∷ 1 ∷ [])) first_events) ≡ continue_as_new second_input
unfolding outcome run run_events step execute continue_as_new_or_complete add contains
first_continues = refl

-- A duplicate signal and one of a record that is not in process are among the events.
abbrev second_events : List Event
second_events =
    executes
    ∷ completes 0
    ∷ completes 0
    ∷ executes
    ∷ executes
    ∷ completes 7
    ∷ completes 2
    ∷ completes 1
    ∷ []

two_runs : Chain 3 3 first_input (0 ∷ 1 ∷ 2 ∷ [])
unfolding outcome run run_events step execute continue_as_new_or_complete handle_completion_signal
    load get_records add contains remove
two_runs =
    more (0 ∷ 1 ∷ []) first_events second_input refl refl (last (2 ∷ []) second_events refl refl)

Chain-result_example :
    (3 + 0 ≡ first_input.maximum_offset) × (0 ∷ 1 ∷ 2 ∷ [] ≡ range_from 0 (3 - 0))
Chain-result_example = Chain-result 0 3 3 first_input-IsCounted two_runs

step-IsCounted_example : IsCounted 0 (step (run first_input (0 ∷ 1 ∷ [])) executes)
step-IsCounted_example =
    step-IsCounted 0 (run first_input (0 ∷ 1 ∷ [])) executes
      (run-IsCounted 0 3 first_input (0 ∷ 1 ∷ []) page_loaded first_input-IsCounted)

query_sorted :
    (handle_state_query
      (record (run first_input []) { current_records = 5 ∷ 2 ∷ 9 ∷ [] })).current_records
    ≡ 2 ∷ 5 ∷ 9 ∷ []
unfolding handle_state_query sorted run
query_sorted = refl

divide_into_partitions_cases_example :
    (ps : List ℕ) × (divide_into_partitions 10 4 ≡ some ps)
    × (length ps ≡ 4)
    × (sum ps ≡ 10)
    × Even 2 ps
divide_into_partitions_cases_example = (divide_into_partitions_cases 10 4).1 (omega arith)

abbrev batch_input : ProcessBatchWorkflowInput
batch_input = record { page_size = 2; sliding_window_size = 2; partitions = 1 }

run_cases_example :
    (is : List SlidingWindowWorkflowInput) × (Batch.run batch_input 3 ≡ children is)
    × Covers 0 3 is
    × (length (windows is) ≡ 1)
    × (sum (windows is) ≡ 2)
    × All (λ size. 0 < size) (windows is)
run_cases_example = (run_cases batch_input 3).2 (omega arith) (omega arith)

run-sum_example : (sum (3 ∷ []) ≡ 3) × (0 ∷ 1 ∷ 2 ∷ [] ≡ range_from 0 3)
unfolding Batch.run child_inputs divide_into_partitions increment_first
run-sum_example =
    run-sum batch_input 3 (first_input ∷ []) (3 ∷ []) (0 ∷ 1 ∷ 2 ∷ []) (omega arith) (omega arith)
      refl (one_ended two_runs all_ended)
