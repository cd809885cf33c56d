-- ===== src/Window/Batch.antt =====
-- batch_sliding_window/batch_workflow.py: the records are divided into ranges, one for each sliding
-- window.
pub mod Cover
pub mod Sum
use samples_python.Base.{
  ℕ, zero, suc, ◌+◌, ◌/◌, ◌%◌, Option, none, some, List, [], ◌∷◌, Bool, if◌then◌else◌, ltb, nat_beq,
}
use samples_python.Window.{SlidingWindowWorkflowInput}

pub record ProcessBatchWorkflowInput : Type 0 where
  pub page_size : ℕ
  pub sliding_window_size : ℕ
  pub partitions : ℕ

-- `[base] * n`
abbrev pub replicate : ℕ → ℕ → List ℕ
replicate zero base = []
replicate (suc n) base = base ∷ replicate n base

-- `for i in range(remainder): partitions[i] += 1`
unfoldable pub increment_first : ℕ → List ℕ → List ℕ
increment_first zero ps = ps
increment_first (suc r) [] = []
increment_first (suc r) (p ∷ ps) = (p + 1) ∷ increment_first r ps

-- `none` is the ZeroDivisionError.
unfoldable pub divide_into_partitions : (number n : ℕ) → Option (List ℕ)
unfolding increment_first
divide_into_partitions number n =
    if nat_beq n 0 then none else some (increment_first (number % n) (replicate n (number / n)))

pub data Error : Type 0 where
  window_less_than_partitions division_by_zero index_error : Error

pub data Result : Type 0 where
  raised : Error → Result
  -- the inputs of the child workflows, in order
  children : List SlidingWindowWorkflowInput → Result

-- The loop that starts the children, over `partitions` and `window_sizes` side by side.
unfoldable pub child_inputs :
    (page_size record_count offset : ℕ) → List ℕ → List ℕ → List SlidingWindowWorkflowInput
child_inputs page_size record_count offset [] sizes = []
child_inputs page_size record_count offset (p ∷ ps) [] = []
child_inputs page_size record_count offset (p ∷ ps) (size ∷ sizes) =
    record {
      page_size = page_size;
      sliding_window_size = size;
      offset = offset;
      maximum_offset = if ltb record_count (offset + p) then record_count else offset + p;
      progress = 0;
      current_records = none;
    }
    ∷ child_inputs page_size record_count (offset + p) ps sizes

start_children : (page_size record_count : ℕ) → Option (List ℕ) → Option (List ℕ) → Result
start_children page_size record_count none sizes = raised division_by_zero
start_children page_size record_count (some ps) none = raised division_by_zero
start_children page_size record_count (some ps) (some sizes) =
    children (child_inputs page_size record_count 0 ps sizes)

-- `run` up to the `gather` of the children, with the answer of `get_record_count`.
unfoldable pub run : ProcessBatchWorkflowInput → (record_count : ℕ) → Result
unfolding start_children
run input record_count =
    if ltb input.sliding_window_size input.partitions
    then raised window_less_than_partitions
    else start_children input.page_size record_count
        (divide_into_partitions record_count input.partitions)
        (divide_into_partitions input.sliding_window_size input.partitions)

-- `sum(results)` over the results of the children
abbrev pub sum : List ℕ → ℕ
sum [] = 0
sum (n ∷ ns) = n + sum ns
