-- ===== src/Window/Batch/Sum.antt =====
-- What the sliding windows of a batch do together.
use samples_python.Base.{
  ℕ, ◌+◌, ◌<◌, ◌≤◌, List, [], ◌∷◌, ◌++◌, ◌-◌, ◌≡◌, subst, sym, ◌∙◌, ap, arith,
}
use samples_python.Window.{SlidingWindowWorkflowInput, range_from}
use samples_python.Window.Pages.{range_from_split}
use samples_python.Window.Result.{Chain, Chain-result}
use samples_python.Window.Batch.{ProcessBatchWorkflowInput, children, run, sum}
use samples_python.Window.Batch.Cover.{Covers, run_cases}

-- Every child ends, by some chain of runs, with its entry of the results; and the records that the
-- children started children for.
pub data AllEnd (record_count : ℕ)
    : List SlidingWindowWorkflowInput → (results ids : List ℕ) → Type 0 where
  all_ended : AllEnd record_count [] [] []
  one_ended :
      {i : SlidingWindowWorkflowInput} {is : List SlidingWindowWorkflowInput} {r : ℕ}
      {rs own ids : List ℕ}
      → Chain record_count r i own
      → AllEnd record_count is rs ids
      → AllEnd record_count (i ∷ is) (r ∷ rs) (own ++ ids)

Covers-order :
    (start end : ℕ) (is : List SlidingWindowWorkflowInput) → Covers start end is → start ≤ end
Covers-order start end [] c = omega (arith, c)
Covers-order start end (i ∷ is) (at, v, c) =
    omega (arith, at, v.within, Covers-order i.maximum_offset end is c)

Covers-sum :
    (record_count start end : ℕ) {is : List SlidingWindowWorkflowInput} {rs ids : List ℕ}
    → AllEnd record_count is rs ids
    → Covers start end is
    → (sum rs + start ≡ end) × (ids ≡ range_from start (end - start))
Covers-sum record_count start end all_ended c =
    let nothing : end - start ≡ 0 = omega (arith, c) in
    (omega (arith, c), ap (range_from start) (sym nothing))
Covers-sum record_count start end (one_ended {i} {is} {r} {rs} {own} {ids} chain a) (at, v, c) =
    let (total, records) = Chain-result i.offset record_count r v chain in
    let (total', records') = Covers-sum record_count i.maximum_offset end a c in
    (
      omega (arith, total, total', at),
      ap (λ (l : List ℕ). l ++ ids) records
          ∙ ap (λ (l : List ℕ). range_from i.offset (i.maximum_offset - i.offset) ++ l) records'
          ∙ range_from_split i.offset i.maximum_offset end v.within
              (Covers-order i.maximum_offset end is c)
          ∙ ap (λ k. range_from k (end - k)) at,
    )

-- So whatever the order of events in each sliding window, once all of them have ended, with at
-- least one partition and a window size of at least one for each, they have started a child for
-- each record from 0 to the record count, one by one and for no other, and the batch returns the
-- record count.
pub run-sum :
    (input : ProcessBatchWorkflowInput) (record_count : ℕ) (is : List SlidingWindowWorkflowInput)
    (results ids : List ℕ)
    → 0 < input.partitions
    → input.partitions ≤ input.sliding_window_size
    → run input record_count ≡ children is
    → AllEnd record_count is results ids
    → (sum results ≡ record_count) × (ids ≡ range_from 0 record_count)
run-sum input record_count is results ids pos enough e a =
    let (is', e', c, _, _, _) = (run_cases input record_count).2 pos enough in
    let same : is' ≡ is = cc in
    let (total, records) =
      Covers-sum record_count 0 record_count a (subst (Covers 0 record_count) same c) in
    let all : record_count - 0 ≡ record_count = omega arith in
    (omega (arith, total), records ∙ ap (range_from 0) all)
