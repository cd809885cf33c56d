-- ===== src/Timer/Tests.antt =====
-- A timer that is moved forward, then back.
use samples_python.Base.{List, [], ◌∷◌, ◌≡◌, refl}
use samples_python.Timer.{
  completed, loop, sleep, update_wake_up_time, Event, updates, condition_holds, timer_fires, step,
  run_events,
}

abbrev moved : List Event
moved = updates 90 ∷ condition_holds 10 ∷ updates 40 ∷ []

run_events_test :
    (run_events
      (sleep 50 0)
      (updates 90 ∷ condition_holds 10 ∷ timer_fires 50 ∷ timer_fires 90 ∷ [])).phase
    ≡ completed
unfolding sleep loop run_events step update_wake_up_time
run_events_test = refl
