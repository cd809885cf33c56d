-- ===== src/Window/Result.antt =====
-- What a run of the sliding window comes to, and the chain of runs.
use samples_python.Base.{
  ℕ, ◌+◌, ◌-◌, Option, none, some, List, [], ◌∷◌, ◌++◌, sym, ◌≡◌, refl, subst, ◌∙◌, ap, inl, inr,
  arith, ltb, length, nat_eq, Bool-cases,
}
use samples_python.Window.{
  SlidingWindowWorkflowInput, SlidingWindowWorkflow, range_from, load, run, Outcome, running,
  continue_as_new, result, continue_as_new_or_complete, after_loop, outcome, Event, run_events,
}
use samples_python.Window.Pages.{
  run_events-input, is_over, started, started-range_from, result-reached, continue_as_new-offset,
  range_from_split,
}
use samples_python.Window.Invariant.{
  IsCounted, InputIsCounted, next_record, starts, run-IsCounted, run_events-IsCounted,
}

-- What an outcome says of the records from `first` on.
abbrev pub OutcomeIsCounted : ℕ → SlidingWindowWorkflowInput → Outcome → Type 0
OutcomeIsCounted first input running = Unit
OutcomeIsCounted first input (result progress) = progress + first ≡ input.maximum_offset
OutcomeIsCounted first input (continue_as_new next) =
    InputIsCounted first next
    × (next.maximum_offset ≡ input.maximum_offset)
    × (next.sliding_window_size ≡ input.sliding_window_size)
    × (next.page_size ≡ input.page_size)

nothing_left :
    (first : ℕ) (w : SlidingWindowWorkflow)
    → w.starting ≡ none
    → IsCounted first w
    → next_record w ≡ w.input.offset + length w.children_started_by_this_run
nothing_left first w s v = omega (arith, ap starts s)

next-InputIsCounted :
    (first : ℕ) (w : SlidingWindowWorkflow)
    → w.starting ≡ none
    → w.records ≡ []
    → IsCounted first w
    → InputIsCounted first (record (w.input) {
      offset = w.input.offset + length w.children_started_by_this_run;
      progress = w.progress;
      current_records = some w.current_records;
    })
next-InputIsCounted first w s q v =
    let here = nothing_left first w s v in
    record {
      counted = v.counted ∙ here;
      below = rw here at v.below;
      distinct = v.distinct;
      within = omega (arith, v.within, here);
      window = v.window;
    }

complete-IsCounted :
    (first : ℕ) (w : SlidingWindowWorkflow)
    → w.starting ≡ none
    → w.records ≡ []
    → IsCounted first w
    → OutcomeIsCounted first w.input (continue_as_new_or_complete w)
unfolding continue_as_new_or_complete
complete-IsCounted first w s q v =
    elim (Bool-cases
      (ltb (w.input.offset + length w.children_started_by_this_run) w.input.maximum_offset)) [
        | inl more ↦ rw more (next-InputIsCounted first w s q v, refl, refl, refl)
        | inr last ↦ rw last (ground (arith, v.counted, v.within, nothing_left first w s v))
      ]

outcome-IsCounted :
    (first : ℕ) (w : SlidingWindowWorkflow)
    → IsCounted first w
    → OutcomeIsCounted first w.input (outcome w)
unfolding outcome
outcome-IsCounted first w v = go w.starting w.records refl refl
  where
    go :
        (s : Option ℕ) (q : List ℕ)
        → w.starting ≡ s
        → w.records ≡ q
        → OutcomeIsCounted first w.input (after_loop s q w)
    go none [] s q = complete-IsCounted first w s q v
    go none (id ∷ ids) s q = tt
    go (some id) ids s q = tt

-- A run from an input that accounts for every record from `first` to its offset, over any order of
-- its own steps and of completion signals, duplicate and unknown ones among them, returns the
-- number of records from `first` to the maximum, or continues as new with an input that accounts
-- for every record in the same way, under the same maximum, window and page size.
pub run-OutcomeIsCounted :
    (first record_count : ℕ) (input : SlidingWindowWorkflowInput) (page : List ℕ) (es : List Event)
    → InputIsCounted first input
    → load record_count input ≡ some page
    → OutcomeIsCounted first input (outcome (run_events (run input page) es))
unfolding run
run-OutcomeIsCounted first record_count input page es v e =
    let w = run_events (run input page) es in
    let counted =
      run_events-IsCounted first (run input page) es
        (run-IsCounted first record_count input page e v) in
    subst (λ i. OutcomeIsCounted first i (outcome w)) (run_events-input (run input page) es)
      (outcome-IsCounted first w counted)

-- A chain of runs that continue one another, the last with a result, and the records that children
-- were started for.
pub data Chain (record_count progress : ℕ) : SlidingWindowWorkflowInput → List ℕ → Type 0 where
  last :
      {input : SlidingWindowWorkflowInput} (page : List ℕ) (es : List Event)
      → load record_count input ≡ some page
      → outcome (run_events (run input page) es) ≡ result progress
      → Chain record_count progress input (started input page es)
  more :
      {input : SlidingWindowWorkflowInput} (page : List ℕ) (es : List Event)
      (next : SlidingWindowWorkflowInput) {ids : List ℕ}
      → load record_count input ≡ some page
      → outcome (run_events (run input page) es) ≡ continue_as_new next
      → Chain record_count progress next ids
      → Chain record_count progress input (started input page es ++ ids)

-- Whatever the order of events in each run, a chain of runs, from an input that accounts for the
-- records from `first` to its offset, starts a child for each record from that offset up to the
-- maximum, one by one and for no other, and ends with the number of records from `first` to the
-- maximum.
pub Chain-result :
    (first record_count progress : ℕ) {input : SlidingWindowWorkflowInput} {ids : List ℕ}
    → InputIsCounted first input
    → Chain record_count progress input ids
    → (progress + first ≡ input.maximum_offset)
      × (ids ≡ range_from input.offset (input.maximum_offset - input.offset))
Chain-result first record_count progress {input} v (last page es e o) = (
  rw o at (run-OutcomeIsCounted first record_count input page es v e),
  started-range_from record_count input page es e v.within (ap is_over o)
      ∙ ap (λ m. range_from input.offset (m - input.offset))
          (result-reached record_count progress input page es e v.within o),
)
Chain-result first record_count progress {input} v (more page es next e o c) =
    let (v', maximum, _, _) = rw o at (run-OutcomeIsCounted first record_count input page es v e) in
    let (total, ids) = Chain-result first record_count progress v' c in
    let offset = continue_as_new-offset record_count input next page es e v.within o in
    (
      total ∙ maximum,
      ap (λ (r : List ℕ). started input page es ++ r) ids
          ∙ ap (λ (r : List ℕ). r ++ range_from next.offset (next.maximum_offset - next.offset))
              (started-range_from record_count input page es e v.within (ap is_over o)
                ∙ ap (λ m. range_from input.offset (m - input.offset)) (sym offset))
          ∙ range_from_split input.offset next.offset next.maximum_offset
              (omega (arith, offset, v.within)) v'.within
          ∙ ap (λ m. range_from input.offset (m - input.offset)) maximum,
    )
