-- ===== src/Window.antt =====
-- batch_sliding_window/sliding_window_workflow.py and record_loader_activity.py: a workflow that
-- processes a range of records in child workflows, at most so many at a time, and continues as new
-- after each page. Sizes, offsets and record ids are natural numbers.
pub mod Sets
pub mod Invariant
pub mod Pages
pub mod Result
pub mod Batch
mod Tests
use samples_python.Base.{
  ℕ, zero, suc, ◌+◌, ◌-◌, Bool, true, false, Option, none, some, List, [], ◌∷◌, ◌++◌, if◌then◌else◌,
  ltb, nat_beq, min, length, nat_eq, contains, add, remove,
}

pub record SlidingWindowWorkflowInput : Type 0 where
  pub page_size : ℕ
  pub sliding_window_size : ℕ
  pub offset : ℕ
  pub maximum_offset : ℕ
  pub progress : ℕ
  pub current_records : Option (List ℕ)

pub record SlidingWindowState : Type 0 where
  pub current_records : List ℕ
  pub children_started_by_this_run : ℕ
  pub offset : ℕ
  pub progress : ℕ

-- A run of the workflow in the loop over its page of records.
pub record SlidingWindowWorkflow : Type 0 where
  pub input : SlidingWindowWorkflowInput
  pub current_records : List ℕ
  pub children_started_by_this_run : List ℕ
  pub offset : ℕ
  pub progress : ℕ
  -- the records that the loop has not reached, and the one at `await start_child_workflow`
  pub records : List ℕ
  pub starting : Option ℕ

-- `n` numbers from `first`: `range(first, first + n)`
abbrev pub range_from : ℕ → ℕ → List ℕ
range_from first zero = []
range_from first (suc n) = first ∷ range_from (first + 1) n

-- The activity; `none` is its ValueError.
unfoldable pub get_records : (record_count page_size offset max_offset : ℕ) → Option (List ℕ)
get_records record_count page_size offset max_offset =
    let limit = min (offset + page_size) max_offset in
    if ltb record_count max_offset then none else some (range_from offset (limit - offset))

-- The page of a run.
unfoldable pub load : (record_count : ℕ) → SlidingWindowWorkflowInput → Option (List ℕ)
load record_count input =
    if ltb input.offset input.maximum_offset
    then get_records record_count input.page_size input.offset input.maximum_offset
    else some []

-- `input.current_records or set()`
abbrev pub or_empty : Option (List ℕ) → List ℕ
or_empty none = []
or_empty (some ids) = ids

unfoldable pub run : SlidingWindowWorkflowInput → List ℕ → SlidingWindowWorkflow
run input records = record {
  input = input;
  current_records = or_empty input.current_records;
  children_started_by_this_run = [];
  offset = input.offset;
  progress = input.progress;
  records = records;
  starting = none;
}

-- `_handle_completion_signal`
unfoldable pub handle_completion_signal : SlidingWindowWorkflow → ℕ → SlidingWindowWorkflow
handle_completion_signal w record_id =
    if contains record_id w.current_records
    then record w {
      current_records = remove record_id w.current_records;
      progress = w.progress + 1;
    }
    else w

-- The loop goes on: the start of a child was accepted, or a record is taken if there is room.
proceed : Option ℕ → List ℕ → SlidingWindowWorkflow → SlidingWindowWorkflow
proceed (some id) records w = record w {
  children_started_by_this_run = w.children_started_by_this_run ++ id ∷ [];
  starting = none;
}
proceed none [] w = w
proceed none (id ∷ records) w =
    if ltb (length w.current_records) w.input.sliding_window_size
    then record w {
      current_records = add id w.current_records;
      records = records;
      starting = some id;
    }
    else w

unfoldable pub execute : SlidingWindowWorkflow → SlidingWindowWorkflow
unfolding proceed
execute w = proceed w.starting w.records w

pub data Outcome : Type 0 where
  running : Outcome
  continue_as_new : SlidingWindowWorkflowInput → Outcome
  result : ℕ → Outcome

-- `_continue_as_new_or_complete`
unfoldable pub continue_as_new_or_complete : SlidingWindowWorkflow → Outcome
continue_as_new_or_complete w =
    let new_offset = w.input.offset + length w.children_started_by_this_run in
    if ltb new_offset w.input.maximum_offset
    then continue_as_new (record {
      page_size = w.input.page_size;
      sliding_window_size = w.input.sliding_window_size;
      offset = new_offset;
      maximum_offset = w.input.maximum_offset;
      progress = w.progress;
      current_records = some w.current_records;
    })
    else if nat_beq (length w.current_records) 0
    then result w.progress
    else running

after_loop : Option ℕ → List ℕ → SlidingWindowWorkflow → Outcome
after_loop none [] w = continue_as_new_or_complete w
after_loop none (id ∷ records) w = running
after_loop (some id) records w = running

-- What the run has come to: it leaves the loop when no record and no start is left.
unfoldable pub outcome : SlidingWindowWorkflow → Outcome
unfolding after_loop
outcome w = after_loop w.starting w.records w

-- `sorted` over the ids
insert_sorted : ℕ → List ℕ → List ℕ
insert_sorted a [] = a ∷ []
insert_sorted a (b ∷ bs) = if ltb b a then b ∷ insert_sorted a bs else a ∷ b ∷ bs

unfoldable pub sorted : List ℕ → List ℕ
unfolding insert_sorted
sorted [] = []
sorted (a ∷ as') = insert_sorted a (sorted as')

unfoldable pub handle_state_query : SlidingWindowWorkflow → SlidingWindowState
handle_state_query w = record {
  current_records = sorted w.current_records;
  children_started_by_this_run = length w.children_started_by_this_run;
  offset = w.offset;
  progress = w.progress;
}

-- What the event loop serves: the loop over the records, or a child's completion signal.
pub data Event : Type 0 where
  executes : Event
  completes : (record_id : ℕ) → Event

unfoldable pub step : SlidingWindowWorkflow → Event → SlidingWindowWorkflow
step w executes = execute w
step w (completes record_id) = handle_completion_signal w record_id

unfoldable pub run_events : SlidingWindowWorkflow → List Event → SlidingWindowWorkflow
run_events w [] = w
run_events w (e ∷ es) = run_events (step w e) es
