-- ===== src/Waiting/Finished.antt =====
-- What is true when the workflow has ended.
use samples_python.Base.{
  Bool, true, false, ◌||◌, List, [], ◌∷◌, if◌then◌else◌, ◌≡◌, refl, sym, ◌∙◌, subst, inl, inr,
  arith, Bool-cases, ◌⊎◌,
}
use samples_python.Waiting.{
  ExitType, success, failure, cancellation, application_error, cancelled_error, Main,
  waiting_for_start, blocked, returning, returned, raising, raised, Workflow, init,
  all_handlers_finished, application_logic, proceed, cancel, Event, my_update, run_proceeds,
  cancel_requested, handler_activity, turn, is_open, step, run_events,
}

abbrev pub interrupts : Main → Event → Bool
interrupts (raising e) cancel_requested = true
interrupts m e = false

-- Whether a cancellation comes while the run waits for handlers after an exception.
unfoldable pub interrupted : Workflow → List Event → Bool
interrupted w [] = false
interrupted w (e ∷ es) = interrupts w.main e || interrupted (step w e) es

-- What each phase says of the exit type and the handlers.
unfoldable pub Coherent : Main → ExitType → (finished : Bool) → Type 0
Coherent waiting_for_start x finished = Unit
Coherent blocked x finished = x ≡ cancellation
Coherent returning x finished = x ≡ success
Coherent returned x finished = (x ≡ success) × (finished ≡ true)
Coherent (raising application_error) x finished = x ≡ failure
Coherent (raising cancelled_error) x finished = Unit
Coherent (raised application_error) x finished = (x ≡ failure) × (finished ≡ true)
Coherent (raised cancelled_error) x finished = finished ≡ true

Coherent-is_open :
    (m : Main) (x : ExitType) (b c : Bool) → is_open m ≡ true → Coherent m x b → Coherent m x c
unfolding Coherent
Coherent-is_open waiting_for_start x b c o k = k
Coherent-is_open blocked x b c o k = k
Coherent-is_open returning x b c o k = k
Coherent-is_open returned x b c o k = ground (arith, o)
Coherent-is_open (raising application_error) x b c o k = k
Coherent-is_open (raising cancelled_error) x b c o k = k
Coherent-is_open (raised e) x b c o k = ground (arith, o)

application_logic-Coherent : (x : ExitType) (b : Bool) → Coherent (application_logic x) x b
unfolding Coherent
application_logic-Coherent success b = refl
application_logic-Coherent failure b = refl
application_logic-Coherent cancellation b = refl

proceed-Coherent :
    (m : Main) (w : Workflow)
    → let b = all_handlers_finished w.handlers in
      Coherent m w.exit_type b → Coherent (proceed m w) w.exit_type b
unfolding Coherent
proceed-Coherent waiting_for_start w k = elim (Bool-cases w.update_started) [
  | inl started ↦
      subst
        (λ s.
          Coherent (if s then application_logic w.exit_type else waiting_for_start) w.exit_type
            (all_handlers_finished w.handlers))
        (sym started) (application_logic-Coherent w.exit_type (all_handlers_finished w.handlers))
  | inr idle ↦
      subst
        (λ s.
          Coherent (if s then application_logic w.exit_type else waiting_for_start) w.exit_type
            (all_handlers_finished w.handlers))
        (sym idle) tt
]
proceed-Coherent blocked w k = k
proceed-Coherent returning w k = elim (Bool-cases (all_handlers_finished w.handlers)) [
  | inl done ↦ rw done (k, refl)
  | inr going ↦ rw going k
]
proceed-Coherent returned w k = k
proceed-Coherent (raising application_error) w k =
    elim (Bool-cases (all_handlers_finished w.handlers)) [
      | inl done ↦ rw done (k, refl)
      | inr going ↦ rw going k
    ]
proceed-Coherent (raising cancelled_error) w k =
    elim (Bool-cases (all_handlers_finished w.handlers)) [
      | inl done ↦ rw done refl
      | inr going ↦ rw going tt
    ]
proceed-Coherent (raised e) w k = k

cancel-Coherent :
    (m : Main) (x : ExitType) (b : Bool)
    → interrupts m cancel_requested ≡ false
    → Coherent m x b
    → Coherent (cancel m) x b
unfolding Coherent
cancel-Coherent waiting_for_start x b i k = tt
cancel-Coherent blocked x b i k = tt
cancel-Coherent returning x b i k = tt
cancel-Coherent returned x b i k = k
cancel-Coherent (raising e) x b i k = ground (arith, i)
cancel-Coherent (raised e) x b i k = k

IsCoherent : Workflow → Type 0
IsCoherent w = Coherent w.main w.exit_type (all_handlers_finished w.handlers)

turn-IsCoherent :
    (w : Workflow) (e : Event)
    → is_open w.main ≡ true
    → interrupts w.main e ≡ false
    → IsCoherent w
    → IsCoherent (turn w e)
unfolding turn IsCoherent
turn-IsCoherent w my_update o i k =
    Coherent-is_open w.main w.exit_type (all_handlers_finished w.handlers) _ o k
turn-IsCoherent w run_proceeds o i k = proceed-Coherent w.main w k
turn-IsCoherent w cancel_requested o i k =
    cancel-Coherent w.main w.exit_type (all_handlers_finished w.handlers) i k
turn-IsCoherent w (handler_activity ok n) o i k =
    Coherent-is_open w.main w.exit_type (all_handlers_finished w.handlers) _ o k

step-IsCoherent :
    (w : Workflow) (e : Event) → interrupts w.main e ≡ false → IsCoherent w → IsCoherent (step w e)
unfolding step
step-IsCoherent w e i k = elim (Bool-cases (is_open w.main)) [
  | inr closed ↦ rw closed k
  | inl opened ↦ rw opened (turn-IsCoherent w e opened i k)
]

turn-exit_type : (w : Workflow) (e : Event) → (turn w e).exit_type ≡ w.exit_type
unfolding turn
turn-exit_type w my_update = refl
turn-exit_type w run_proceeds = refl
turn-exit_type w cancel_requested = refl
turn-exit_type w (handler_activity ok n) = refl

step-exit_type : (w : Workflow) (e : Event) → (step w e).exit_type ≡ w.exit_type
unfolding step
step-exit_type w e = elim (Bool-cases (is_open w.main)) [
  | inr closed ↦ rw closed refl
  | inl opened ↦ rw opened (turn-exit_type w e)
]

run_events-IsCoherent :
    (w : Workflow) (es : List Event)
    → interrupted w es ≡ false
    → IsCoherent w
    → IsCoherent (run_events w es) × ((run_events w es).exit_type ≡ w.exit_type)
unfolding run_events interrupted
run_events-IsCoherent w [] i k = (k, refl)
run_events-IsCoherent w (e ∷ es) i k =
    let rest =
      run_events-IsCoherent (step w e) es (ground (arith, i))
        (step-IsCoherent w e (ground (arith, i)) k) in
    (rest.0, rest.1 ∙ step-exit_type w e)

-- The three ways to end.
abbrev pub Ended : ExitType → Main → Type 0
Ended x m =
    (m ≡ raised cancelled_error)
    ⊎ ((m ≡ returned) × (x ≡ success))
    ⊎ ((m ≡ raised application_error) × (x ≡ failure))

Coherent-Ended :
    (m : Main) (x : ExitType) (b : Bool)
    → is_open m ≡ false
    → Coherent m x b
    → (b ≡ true) × Ended x m
unfolding Coherent
Coherent-Ended waiting_for_start x b o k = ground (arith, o)
Coherent-Ended blocked x b o k = ground (arith, o)
Coherent-Ended returning x b o k = ground (arith, o)
Coherent-Ended returned x b o k = (k.1, inr (inl (refl, k.0)))
Coherent-Ended (raising e) x b o k = ground (arith, o)
Coherent-Ended (raised application_error) x b o k = (k.1, inr (inr (refl, k.0)))
Coherent-Ended (raised cancelled_error) x b o k = (k, inl refl)

-- From the beginning, whatever the events: unless a cancellation comes while the run waits for
-- handlers after an exception, once the workflow has ended every update handler has finished, and it
-- has ended in one of three ways: it was cancelled, it returned and was to succeed, or it raised
-- the application error and was to fail.
pub run_events-Ended :
    (x : ExitType) (es : List Event)
    → interrupted (init x) es ≡ false
    → is_open (run_events (init x) es).main ≡ false
    → (all_handlers_finished (run_events (init x) es).handlers ≡ true)
      × Ended x (run_events (init x) es).main
unfolding init IsCoherent Coherent
run_events-Ended x es quiet closed =
    let w = run_events (init x) es in
    let kept = run_events-IsCoherent (init x) es quiet tt in
    subst (λ y. (all_handlers_finished w.handlers ≡ true) × Ended y w.main) kept.1
      (Coherent-Ended w.main w.exit_type (all_handlers_finished w.handlers) closed kept.0)
