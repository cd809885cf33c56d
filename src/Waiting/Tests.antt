-- ===== src/Waiting/Tests.antt =====
-- Runs at concrete inputs.
use samples_python.Base.{true, false, List, [], ◌∷◌, ◌≡◌, refl}
use samples_python.Waiting.{
  success, failure, cancellation, cancelled_error, at_activity, raised, init, all_handlers_finished,
  Event, my_update, run_proceeds, cancel_requested, handler_activity, turn, step, run_events,
}
use samples_python.Waiting.Finished.{Ended, interrupted, run_events-Ended}

abbrev good : List Event
good = my_update ∷ run_proceeds ∷ run_proceeds ∷ handler_activity true 0 ∷ run_proceeds ∷ []

run_events-Ended_example :
    (all_handlers_finished (run_events (init success) good).handlers ≡ true)
    × Ended success (run_events (init success) good).main
unfolding interrupted init run_events step turn all_handlers_finished
run_events-Ended_example = run_events-Ended success good refl refl

-- A cancelled run waits for its handler.
cancelled_test :
    (run_events (init cancellation) (
      my_update
      ∷ run_proceeds
      ∷ cancel_requested
      ∷ run_proceeds
      ∷ handler_activity false 0
      ∷ run_proceeds
      ∷ [])).main
    ≡ raised cancelled_error
unfolding init run_events step turn all_handlers_finished
cancelled_test = refl

-- A failing run that is cancelled at its wait does not wait, and hides its failure.
interrupted_test :
    ((run_events (init failure) (my_update ∷ run_proceeds ∷ cancel_requested ∷ [])).main
      ≡ raised cancelled_error)
    × ((run_events (init failure) (my_update ∷ run_proceeds ∷ cancel_requested ∷ [])).handlers
        ≡ at_activity ∷ [])
unfolding init run_events step turn
interrupted_test = (refl, refl)
