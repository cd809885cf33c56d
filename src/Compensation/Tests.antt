-- ===== src/Compensation/Tests.antt =====
-- Runs at concrete inputs.
use samples_python.Base.{true, false, List, [], ◌∷◌, ◌≡◌, refl}
use samples_python.Compensation.{
  success, failure, cancellation, failure_error, succeeded, racing, answered, update_result,
  raised_to_caller, at_activity, task_failed, ended, init, all_handlers_finished, Event, update,
  run_proceeds, cancel_requested, handler_goes_on, handler_activity, compensation, turn, step,
  run_events, handler_proceeds, activity_ends,
}
use samples_python.Compensation.Invariant.{IsSafe, Coherent, step-IsSafe, run_events-returned}

-- An update that is answered with its result after the run has succeeded.
abbrev good : List Event
good = update ∷ run_proceeds ∷ handler_activity true 0 ∷ handler_goes_on 0 ∷ run_proceeds ∷ []

run_events-returned_example :
    (all_handlers_finished (run_events (init success) good).handlers ≡ true)
    × ((run_events (init success) good).workflow_compensation_done ≡ false)
unfolding init run_events step turn handler_proceeds activity_ends all_handlers_finished
run_events-returned_example = run_events-returned success good refl

-- A failing run whose update is compensated.
abbrev bad : List Event
bad =
    update
    ∷ run_proceeds
    ∷ handler_goes_on 0
    ∷ handler_activity true 0
    ∷ run_proceeds
    ∷ compensation true
    ∷ []

failure_test :
    ((run_events (init failure) bad).main ≡ ended failure_error)
    × ((run_events (init failure) bad).handlers ≡ answered (raised_to_caller failure_error) ∷ [])
unfolding init run_events step turn handler_proceeds activity_ends all_handlers_finished
failure_test = (refl, refl)

step-IsSafe_example : IsSafe (step (run_events (init failure) []) update)
unfolding init run_events IsSafe Coherent
step-IsSafe_example = step-IsSafe (run_events (init failure) []) update ((refl, refl), tt)

-- The cancellation of a run that has its result, and waits for the handlers.
cancel_after_result_test :
    (run_events (init success) (update ∷ run_proceeds ∷ cancel_requested ∷ [])).main ≡ task_failed
unfolding init run_events step turn
cancel_after_result_test = refl

-- An update that comes while the run is compensating is not waited for.
late_update_test :
    (run_events (init failure) (
      update
      ∷ run_proceeds
      ∷ handler_goes_on 0
      ∷ handler_activity true 0
      ∷ run_proceeds
      ∷ update
      ∷ compensation true
      ∷ [])).handlers
    ≡ answered (raised_to_caller failure_error) ∷ racing at_activity ∷ []
unfolding init run_events step turn handler_proceeds activity_ends all_handlers_finished
late_update_test = refl

-- The flag of the update's compensation is set, though the update has succeeded.
flag_test :
    let w = run_events (init failure) (
      update
      ∷ handler_activity true 0
      ∷ run_proceeds
      ∷ handler_goes_on 0
      ∷ run_proceeds
      ∷ compensation true
      ∷ []) in
    (w.handlers ≡ answered update_result ∷ []) × (w.update_compensation_done ≡ true)
unfolding init run_events step turn handler_proceeds activity_ends all_handlers_finished
flag_test = (refl, refl)

-- An update that has succeeded is not answered while the run goes on.
unanswered_test :
    (run_events
      (init cancellation)
      (update ∷ run_proceeds ∷ handler_activity true 0 ∷ handler_goes_on 0 ∷ [])).handlers
    ≡ racing succeeded ∷ []
unfolding init run_events step turn handler_proceeds activity_ends
unanswered_test = refl
