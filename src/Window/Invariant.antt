-- ===== src/Window/Invariant.antt =====
-- What holds of a run between any two turns of its event loop: no record is counted twice or lost.
use samples_python.Base.{
  ℕ, zero, suc, ◌+◌, ◌-◌, ◌<◌, ◌≤◌, Option, none, some, List, [], ◌∷◌, ◌++◌, ◌≡◌, refl, sym, ◌∙◌,
  ap, inl, inr, arith, ltb, ltb→lt, min, length, length-append, nat_eq, contains, add, Distinct,
  Bool-cases,
}
use samples_python.Window.{
  SlidingWindowWorkflowInput, SlidingWindowWorkflow, range_from, get_records, load, or_empty, run,
  handle_completion_signal, proceed, execute, Event, executes, completes, step, run_events,
}
use samples_python.Window.Sets.{
  Below, remove-Below, remove-Distinct, length-remove, add_fresh, add_fresh-Distinct,
  add_fresh-Below,
}

abbrev pub starts : Option ℕ → ℕ
starts none = 0
starts (some id) = 1

-- The first record that the loop has not taken.
abbrev pub next_record : SlidingWindowWorkflow → ℕ
next_record w = w.input.offset + length w.children_started_by_this_run + starts w.starting

-- `first` is the offset at which the chain of runs began.
pub record IsCounted (first : ℕ) (w : SlidingWindowWorkflow) : Type 0 where
  -- every record taken is in process or done
  pub counted : w.progress + length w.current_records + first ≡ next_record w
  pub below : Below (next_record w) w.current_records
  pub distinct : Distinct w.current_records
  -- the records left are those that follow, up to the maximum
  pub queue : w.records ≡ range_from (next_record w) (length w.records)
  pub within : next_record w + length w.records ≤ w.input.maximum_offset
  pub window : length w.current_records ≤ w.input.sliding_window_size

-- The same of an input.
pub record InputIsCounted (first : ℕ) (input : SlidingWindowWorkflowInput) : Type 0 where
  pub counted : input.progress + length (or_empty input.current_records) + first ≡ input.offset
  pub below : Below input.offset (or_empty input.current_records)
  pub distinct : Distinct (or_empty input.current_records)
  pub within : input.offset ≤ input.maximum_offset
  pub window : length (or_empty input.current_records) ≤ input.sliding_window_size

pub length-range_from : (first n : ℕ) → length (range_from first n) ≡ n
length-range_from first zero = refl
length-range_from first (suc n) = ap suc (length-range_from (first + 1) n)

-- The page that the activity gives.
pub load_page :
    (record_count : ℕ) (input : SlidingWindowWorkflowInput) (page : List ℕ)
    → load record_count input ≡ some page
    → input.offset ≤ input.maximum_offset
    → page
      ≡ range_from input.offset
          (min (input.offset + input.page_size) input.maximum_offset - input.offset)
unfolding load get_records
load_page record_count input page e h = elim (Bool-cases (ltb input.offset input.maximum_offset)) [
  | inl some_left ↦ ground arith
  | inr none_left ↦
      let all_done : min (input.offset + input.page_size) input.maximum_offset - input.offset ≡ 0 =
        ground arith in
      rw all_done (ground arith)
]

-- A run starts counted.
pub run-IsCounted :
    (first record_count : ℕ) (input : SlidingWindowWorkflowInput) (page : List ℕ)
    → load record_count input ≡ some page
    → InputIsCounted first input
    → IsCounted first (run input page)
unfolding run
run-IsCounted first record_count input page e v =
    let left : ℕ = min (input.offset + input.page_size) input.maximum_offset - input.offset in
    let page_is = load_page record_count input page e v.within in
    let size : length page ≡ left = ap length page_is ∙ length-range_from input.offset left in
    let here : input.offset + 0 + 0 ≡ input.offset = omega arith in
    record {
      counted = omega (arith, v.counted);
      below = rw here v.below;
      distinct = v.distinct;
      queue = rw (here, size) page_is;
      within = omega (arith, size, v.within);
      window = v.window;
    }

completion-IsCounted :
    (first : ℕ) (w : SlidingWindowWorkflow) (record_id : ℕ)
    → IsCounted first w
    → IsCounted first (handle_completion_signal w record_id)
unfolding handle_completion_signal
completion-IsCounted first w record_id v =
    elim (Bool-cases (contains record_id w.current_records)) [
      | inr unknown ↦ rw unknown v
      | inl known ↦ rw known (record {
        counted =
            omega (arith, length-remove record_id w.current_records v.distinct known, v.counted);
        below = remove-Below record_id (next_record w) w.current_records v.below;
        distinct = remove-Distinct record_id w.current_records v.distinct;
        queue = v.queue;
        within = v.within;
        window =
            omega (arith, length-remove record_id w.current_records v.distinct known, v.window);
      })
    ]

accepted-IsCounted :
    (first id : ℕ) (w : SlidingWindowWorkflow)
    → w.starting ≡ some id
    → IsCounted first w
    → IsCounted first (record w {
      children_started_by_this_run = w.children_started_by_this_run ++ id ∷ [];
      starting = none;
    })
accepted-IsCounted first id w s v =
    let started = length-append w.children_started_by_this_run (id ∷ []) in
    let same : w.input.offset + length (w.children_started_by_this_run ++ id ∷ []) + 0
        ≡ next_record w =
      omega (arith, started, ap starts s) in
    record {
      counted = v.counted ∙ sym same;
      below = rw same v.below;
      distinct = v.distinct;
      queue = rw same v.queue;
      within = rw same v.within;
      window = v.window;
    }

taken-IsCounted :
    (first id : ℕ) (records : List ℕ) (w : SlidingWindowWorkflow)
    → w.starting ≡ none
    → w.records ≡ id ∷ records
    → length w.current_records < w.input.sliding_window_size
    → IsCounted first w
    → IsCounted first (record w {
      current_records = add id w.current_records;
      records = records;
      starting = some id;
    })
taken-IsCounted first id records w s q room v =
    let page : id ∷ records ≡ range_from (next_record w) (suc (length records)) = rw q at v.queue in
    let this : id ≡ next_record w = cc in
    let others : records ≡ range_from (next_record w + 1) (length records) = cc in
    let grown : add id w.current_records ≡ w.current_records ++ next_record w ∷ [] =
      rw this (add_fresh (next_record w) w.current_records v.below) in
    let size = length-append w.current_records (next_record w ∷ []) in
    let later : w.input.offset + length w.children_started_by_this_run + 1 ≡ next_record w + 1 =
      omega (arith, ap starts s) in
    record {
      counted = rw grown (omega (arith, size, ap starts s, v.counted));
      below = rw (grown, later) (add_fresh-Below (next_record w) w.current_records v.below);
      distinct = rw grown (add_fresh-Distinct (next_record w) w.current_records v.distinct v.below);
      queue = rw later others;
      within = omega (arith, ap starts s, ap length q, v.within);
      window = rw grown (omega (arith, size, room));
    }

proceed-IsCounted :
    (first : ℕ) (starting : Option ℕ) (records : List ℕ) (w : SlidingWindowWorkflow)
    → w.starting ≡ starting
    → w.records ≡ records
    → IsCounted first w
    → IsCounted first (proceed starting records w)
unfolding proceed
proceed-IsCounted first (some id) records w s q v = accepted-IsCounted first id w s v
proceed-IsCounted first none [] w s q v = v
proceed-IsCounted first none (id ∷ records) w s q v =
    elim (Bool-cases (ltb (length w.current_records) w.input.sliding_window_size)) [
      | inl room ↦ rw room (taken-IsCounted first id records w s q (ltb→lt _ _ room) v)
      | inr full ↦ rw full v
    ]

-- Every turn of the event loop keeps the count.
pub step-IsCounted :
    (first : ℕ) (w : SlidingWindowWorkflow) (e : Event)
    → IsCounted first w
    → IsCounted first (step w e)
unfolding step execute
step-IsCounted first w executes v = proceed-IsCounted first w.starting w.records w refl refl v
step-IsCounted first w (completes id) v = completion-IsCounted first w id v

pub run_events-IsCounted :
    (first : ℕ) (w : SlidingWindowWorkflow) (es : List Event)
    → IsCounted first w
    → IsCounted first (run_events w es)
unfolding run_events
run_events-IsCounted first w [] v = v
run_events-IsCounted first w (e ∷ es) v =
    run_events-IsCounted first (step w e) es (step-IsCounted first w e v)
