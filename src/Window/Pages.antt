-- ===== src/Window/Pages.antt =====
-- The page of a run: which records its children are started for.
use samples_python.Base.{
  ℕ, zero, suc, ◌+◌, ◌-◌, ◌≤◌, Bool, true, false, Option, none, some, List, [], ◌∷◌, ◌++◌, ◌≡◌,
  refl, sym, ◌∙◌, ap, inl, inr, arith, ltb, min, length, nat_eq, contains, Bool-cases,
}
use mathlib.Core.List.{append-nil, append_assoc}
use samples_python.Window.{
  SlidingWindowWorkflowInput, SlidingWindowWorkflow, range_from, load, run, Outcome, running,
  continue_as_new, result, continue_as_new_or_complete, after_loop, outcome, Event, executes,
  completes, step, handle_completion_signal, execute, proceed, run_events,
}
use samples_python.Window.Invariant.{load_page, length-range_from}

step-input : (w : SlidingWindowWorkflow) (e : Event) → (step w e).input ≡ w.input
unfolding step handle_completion_signal execute proceed
step-input w executes = ground arith
step-input w (completes id) = ground arith

pub run_events-input :
    (w : SlidingWindowWorkflow) (es : List Event) → (run_events w es).input ≡ w.input
unfolding run_events
run_events-input w [] = refl
run_events-input w (e ∷ es) = run_events-input (step w e) es ∙ step-input w e

abbrev ids_of : Option ℕ → List ℕ
ids_of none = []
ids_of (some id) = id ∷ []

-- The page, at any point of a run: what was started, what is starting and what is left.
abbrev page_of : SlidingWindowWorkflow → List ℕ
page_of w = w.children_started_by_this_run ++ (ids_of w.starting ++ w.records)

page_of-proceed :
    (s : Option ℕ) (q : List ℕ) (w : SlidingWindowWorkflow)
    → w.starting ≡ s
    → w.records ≡ q
    → page_of (proceed s q w) ≡ page_of w
unfolding proceed
page_of-proceed (some id) q w e f =
    append_assoc w.children_started_by_this_run (id ∷ []) w.records
    ∙ ap (λ s. w.children_started_by_this_run ++ (ids_of s ++ w.records)) (sym e)
page_of-proceed none [] w e f = refl
page_of-proceed none (id ∷ q) w e f =
    elim (Bool-cases (ltb (length w.current_records) w.input.sliding_window_size)) [
      | inr full ↦ rw full refl
      | inl room ↦ rw room (
          ap (λ (r : List ℕ). w.children_started_by_this_run ++ r) (sym f)
          ∙ ap (λ s. w.children_started_by_this_run ++ (ids_of s ++ w.records)) (sym e))
    ]

page_of-step : (w : SlidingWindowWorkflow) (e : Event) → page_of (step w e) ≡ page_of w
unfolding step handle_completion_signal execute
page_of-step w executes = page_of-proceed w.starting w.records w refl refl
page_of-step w (completes id) = elim (Bool-cases (contains id w.current_records)) [
  | inl known ↦ rw known refl
  | inr unknown ↦ rw unknown refl
]

page_of-run_events :
    (w : SlidingWindowWorkflow) (es : List Event) → page_of (run_events w es) ≡ page_of w
unfolding run_events
page_of-run_events w [] = refl
page_of-run_events w (e ∷ es) = page_of-run_events (step w e) es ∙ page_of-step w e

abbrev pub is_over : Outcome → Bool
is_over running = false
is_over _ = true

-- The records that the children of a run were started for, from an input and events.
abbrev pub started : SlidingWindowWorkflowInput → List ℕ → List Event → List ℕ
started input page es = (run_events (run input page) es).children_started_by_this_run

over_page :
    (s : Option ℕ) (q : List ℕ) (w : SlidingWindowWorkflow)
    → w.starting ≡ s
    → w.records ≡ q
    → is_over (after_loop s q w) ≡ true
    → w.children_started_by_this_run ≡ page_of w
unfolding after_loop
over_page (some id) q w e f o = cc
over_page none (id ∷ q) w e f o = cc
over_page none [] w e f o =
    sym (append-nil w.children_started_by_this_run)
    ∙ ap (λ (r : List ℕ). w.children_started_by_this_run ++ r) (sym f)
    ∙ ap (λ s. w.children_started_by_this_run ++ (ids_of s ++ w.records)) (sym e)

-- A run that is over has started its page, in order.
started-page :
    (input : SlidingWindowWorkflowInput) (page : List ℕ) (es : List Event)
    → is_over (outcome (run_events (run input page) es)) ≡ true
    → started input page es ≡ page
unfolding outcome run
started-page input page es o =
    let w = run_events (run input page) es in
    over_page w.starting w.records w refl refl o ∙ page_of-run_events (run input page) es

-- Where a run that is over has come to: the end of its page.
abbrev pub reached : SlidingWindowWorkflowInput → ℕ
reached input = min (input.offset + input.page_size) input.maximum_offset

pub started-range_from :
    (record_count : ℕ) (input : SlidingWindowWorkflowInput) (page : List ℕ) (es : List Event)
    → load record_count input ≡ some page
    → input.offset ≤ input.maximum_offset
    → is_over (outcome (run_events (run input page) es)) ≡ true
    → started input page es ≡ range_from input.offset (reached input - input.offset)
started-range_from record_count input page es e h o =
    started-page input page es o ∙ load_page record_count input page e h

continue_as_new_offset :
    (s : Option ℕ) (q : List ℕ) (w : SlidingWindowWorkflow) (next : SlidingWindowWorkflowInput)
    → after_loop s q w ≡ continue_as_new next
    → next.offset ≡ w.input.offset + length w.children_started_by_this_run
unfolding after_loop continue_as_new_or_complete
continue_as_new_offset (some id) q w next o = cc
continue_as_new_offset none (id ∷ q) w next o = cc
continue_as_new_offset none [] w next o = ground arith

result_offset :
    (s : Option ℕ) (q : List ℕ) (w : SlidingWindowWorkflow) (progress : ℕ)
    → after_loop s q w ≡ result progress
    → w.input.maximum_offset ≤ w.input.offset + length w.children_started_by_this_run
unfolding after_loop continue_as_new_or_complete
result_offset (some id) q w progress o = cc
result_offset none (id ∷ q) w progress o = cc
result_offset none [] w progress o = ground arith

-- A run that continues as new has moved the offset by exactly its page: by the page size, or to the
-- maximum offset if that is nearer. So with a page size above 0 a chain of runs comes to its end.
pub continue_as_new-offset :
    (record_count : ℕ) (input next : SlidingWindowWorkflowInput) (page : List ℕ) (es : List Event)
    → load record_count input ≡ some page
    → input.offset ≤ input.maximum_offset
    → outcome (run_events (run input page) es) ≡ continue_as_new next
    → next.offset ≡ min (input.offset + input.page_size) input.maximum_offset
unfolding outcome run
continue_as_new-offset record_count input next page es e h o =
    let w = run_events (run input page) es in
    omega (
      arith,
      continue_as_new_offset w.starting w.records w next o,
      ap length (started-range_from record_count input page es e h (ap is_over o)),
      length-range_from input.offset (reached input - input.offset),
      ap (λ (i : SlidingWindowWorkflowInput). i.offset) (run_events-input (run input page) es),
    )

-- A run with a result has reached the maximum.
pub result-reached :
    (record_count progress : ℕ) (input : SlidingWindowWorkflowInput) (page : List ℕ)
    (es : List Event)
    → load record_count input ≡ some page
    → input.offset ≤ input.maximum_offset
    → outcome (run_events (run input page) es) ≡ result progress
    → reached input ≡ input.maximum_offset
unfolding outcome run
result-reached record_count progress input page es e h o =
    let w = run_events (run input page) es in
    omega (
      arith,
      result_offset w.starting w.records w progress o,
      ap length (started-range_from record_count input page es e h (ap is_over o)),
      length-range_from input.offset (reached input - input.offset),
      ap (λ (i : SlidingWindowWorkflowInput). i.offset) (run_events-input (run input page) es),
      ap (λ (i : SlidingWindowWorkflowInput). i.maximum_offset)
          (run_events-input (run input page) es),
    )

-- Two ranges side by side.
pub range_from-append :
    (m n first : ℕ) → range_from first m ++ range_from (first + m) n ≡ range_from first (m + n)
range_from-append zero n first =
    let here : first + 0 ≡ first = omega arith in
    let size : 0 + n ≡ n = omega arith in
    ap (λ k. range_from k n) here ∙ ap (range_from first) (sym size)
range_from-append (suc m) n first =
    let later : first + suc m ≡ (first + 1) + m = omega arith in
    let size : suc (m + n) ≡ suc m + n = omega arith in
    ap (λ k. first ∷ (range_from (first + 1) m ++ range_from k n)) later
    ∙ ap (λ (r : List ℕ). first ∷ r) (range_from-append m n (first + 1))
    ∙ ap (range_from first) size

pub range_from_split :
    (a b c : ℕ)
    → a ≤ b
    → b ≤ c
    → range_from a (b - a) ++ range_from b (c - b) ≡ range_from a (c - a)
range_from_split a b c h k =
    let here : b ≡ a + (b - a) = omega arith in
    let size : (b - a) + (c - b) ≡ c - a = omega arith in
    ap (λ i. range_from a (b - a) ++ range_from i (c - b)) here
    ∙ range_from-append (b - a) (c - b) a
    ∙ ap (range_from a) size
