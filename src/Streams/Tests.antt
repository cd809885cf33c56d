-- ===== src/Streams/Tests.antt =====
-- A stream that is a list, the pipeline's log read in two goes, and a ticker.
use samples_python.Base.{
  drop, ℕ, ◌+◌, ◌-◌, ◌≤◌, ◌<◌, min, Option, none, some, List, [], ◌∷◌, ◌++◌, ◌≡◌, refl, ap, arith,
  length, take,
}
use samples_python.Base.Text.{Text, text_eq}
use samples_python.Streams.Log.{WorkflowStream, Item}
use samples_python.Streams.{
  Ticker, tick, ticks, new_ticker, run_ticker, stages, publish_all, run_pipeline, Happening, item,
  polled, main,
}
use samples_python.Streams.Bounds.{every, numbers, run_ticker-bounded}
use samples_python.Streams.Reconnect.{items_of, from_offset, through_complete, main-items}

abbrev list_new : {Event : Type 0} → Option (ℕ × List Event) → ℕ × List Event
list_new none = (0, [])
list_new (some prior) = prior

abbrev list_stream : (Event : Type 0) → WorkflowStream Event
list_stream Event = record {
  Stream = ℕ × List Event;
  StreamState = ℕ × List Event;
  new = list_new;
  publish = λ e s. (s.0, s.1 ++ e ∷ []);
  truncate = λ n s. (n, drop (n - s.0) s.1);
  base_offset = λ s. s.0;
  log = λ s. s.1;
  base_offset-new = refl;
  log-new = refl;
  base_offset-publish = λ e s. refl;
  log-publish = λ e s. refl;
  base_offset-truncate = λ n s low high. refl;
  log-truncate = λ n s low high. refl;
}

run_ticker_test :
    run_ticker (list_stream ℕ) (every 5 3 12)
    ≡ some record { stream = (7, 7 ∷ 8 ∷ 9 ∷ 10 ∷ 11 ∷ []); published = 12 }
unfolding run_ticker ticks tick new_ticker
run_ticker_test = refl

-- A period of 0 raises ZeroDivisionError.
never_test : run_ticker (list_stream ℕ) (every 0 3 2) ≡ none
unfolding run_ticker ticks tick new_ticker
never_test = refl

-- If nothing is to be kept, the last truncation takes the last event too.
nothing_kept_test :
    run_ticker (list_stream ℕ) (every 5 0 5) ≡ some record { stream = (5, []); published = 5 }
unfolding run_ticker ticks tick new_ticker
nothing_kept_test = refl

run_pipeline_test : run_pipeline (list_stream Text) (0, []) ≡ (0, stages)
unfolding run_pipeline publish_all
run_pipeline_test = refl

abbrev numbered : ℕ → List Text → List (Item Text)
numbered n [] = []
numbered n (stage ∷ stages) = record { offset = n; event = stage } ∷ numbered (n + 1) stages

abbrev received : List (Item Text) → List Happening
received [] = []
received (i ∷ items) = polled (some 4) ∷ item i ∷ received items

abbrev log : List (Item Text)
log = numbered 0 stages

run_ticker-bounded_example :
    (t : Ticker (list_stream ℕ)) × (run_ticker (list_stream ℕ) (every 5 3 12) ≡ some t)
    × (t.published ≡ 12)
    × (t.stream.1 ≡ numbers t.stream.0 (length t.stream.1))
    × (t.stream.0 + length t.stream.1 ≡ 12)
    × (min 3 12 ≤ length t.stream.1)
    × (length t.stream.1 < 3 + 5)
run_ticker-bounded_example = run_ticker-bounded (list_stream ℕ) 12 3 4

items_of-received : (items : List (Item Text)) → items_of (received items) ≡ items
unfolding items_of
items_of-received [] = refl
items_of-received (i ∷ items) = ap (λ r. i ∷ r) (items_of-received items)

main-items_example :
    (main (received log) (some 5 ∷ none ∷ []) (λ n. received (from_offset n log))).1
    ≡ take 2 log ++ through_complete (drop 2 log)
main-items_example =
    main-items log (received log) (some 5 ∷ none ∷ []) (λ n. received (from_offset n log))
      (
        ground arith,
        (ground arith, (ground arith, (ground arith, (ground arith, (ground arith, tt))))),
      )
      (items_of-received log) (λ n. items_of-received (from_offset n log))
