-- ===== src/Greeting/Tests.antt =====
-- Greetings at concrete inputs.
use samples_python.Base.{none, some, List, [], ◌∷◌, ◌≡◌, refl, true, nat_eq, get, set_item}
use samples_python.Base.Text.{Text, text}
use samples_python.Greeting.{
  init, approve, set_language_using_activity, greeting_arrives, run, Event, approves,
  sets_using_activity, answers, condition_holds, step, run_events,
}
use samples_python.Greeting.Result.{run_events-returned_greeting}

abbrev french : List Event
french =
    sets_using_activity 4
    ∷ approves (text "a")
    ∷ condition_holds
    ∷ answers (some (text "c"))
    ∷ condition_holds
    ∷ []

run_events-returned_greeting_example :
    let w = run_events (init (text "x") (text "y")) french in
    (g : Text) × (some (text "c") ≡ some g)
    × (get w.language w.greetings ≡ some g)
    × (w.approved_for_release ≡ true)
    × (w.holder ≡ none)
    × (w.waiters ≡ [])
unfolding init run_events step approve set_language_using_activity greeting_arrives run get set_item
run_events-returned_greeting_example =
    run_events-returned_greeting (text "x") (text "y") french (some (text "c")) refl

-- The second call does not wait for the first, whose language is the last to be set.
order_test :
    (run_events
      (init (text "x") (text "y"))
      (sets_using_activity 4 ∷ sets_using_activity 2 ∷ answers (some (text "c")) ∷ [])).language
    ≡ 4
unfolding init run_events step set_language_using_activity greeting_arrives get set_item
order_test = refl
