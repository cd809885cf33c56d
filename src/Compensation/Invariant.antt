-- ===== src/Compensation/Invariant.antt =====
-- What the phases of a run say of its exit, its compensation and its handlers.
use samples_python.Base.{
  ℕ, zero, suc, Bool, true, false, List, [], ◌∷◌, ◌≡◌, refl, sym, ap, subst, inl, inr, arith,
  if◌then◌else◌, All, All-append, Bool-cases,
}
use samples_python.Compensation.{
  ExitType, success, failure, cancellation, Exception, failure_error, cancelled_error, other_error,
  is_workflow_exit_exception, Exit, pending, result, exception, update_result, compensation_failed,
  raised_to_caller, at_activity, succeeded, raised, Handler, racing, compensating, answered, Main,
  waiting_for_start, blocked, returning, returned, task_failed, failing, undoing, ended, Workflow,
  init, all_handlers_finished, caught, application_logic, proceed, compensate, cancel,
  handler_proceeds, activity_ends, at, Event, update, run_proceeds, cancel_requested,
  handler_goes_on, handler_activity, compensation, is_open, turn, step, run_events,
}

abbrev pub is_pending : Exit → Bool
is_pending pending = true
is_pending _ = false

abbrev pub is_exception : Exit → Bool
is_exception (exception e) = true
is_exception _ = false

-- A handler that has told its caller of success, told it after the exit was known.
abbrev pub Fits : Exit → Handler → Type 0
Fits exit (answered update_result) = is_pending exit ≡ false
Fits exit _ = Unit {0}

unfoldable pub Coherent : Main → Exit → (workflow_compensation_done : Bool) → List Handler → Type 0
Coherent waiting_for_start exit compensated hs = (exit ≡ pending) × (compensated ≡ false)
Coherent blocked exit compensated hs = (exit ≡ pending) × (compensated ≡ false)
Coherent returning exit compensated hs = (exit ≡ result) × (compensated ≡ false)
Coherent returned exit compensated hs =
    (exit ≡ result) × (compensated ≡ false) × (all_handlers_finished hs ≡ true)
Coherent task_failed exit compensated hs = (exit ≡ result) × (compensated ≡ false)
Coherent (failing e) exit compensated hs = (exit ≡ exception e) × (compensated ≡ false)
Coherent (undoing e) exit compensated hs = (exit ≡ exception e) × (compensated ≡ false)
Coherent (ended e) exit compensated hs =
    (is_exception exit ≡ true) × (compensated ≡ true → exit ≡ exception e)

unfoldable pub IsSafe : Workflow → Type 0
IsSafe w =
    Coherent w.main w.workflow_exit w.workflow_compensation_done w.handlers
    × All (Fits w.workflow_exit) w.handlers

All-at :
    {P : Handler → Type 0} (n : ℕ) (f : Handler → Handler) (hs : List Handler)
    → ((h : Handler) → P h → P (f h))
    → All P hs
    → All P (at n f hs)
All-at n f [] k a = tt
All-at zero f (h ∷ hs) k a = (k h a.0, a.1)
All-at (suc n) f (h ∷ hs) k a = (a.0, All-at n f hs k a.1)

handler_proceeds-Fits :
    (exit : Exit) (h : Handler) → Fits exit h → Fits exit (handler_proceeds exit h)
unfolding handler_proceeds
handler_proceeds-Fits exit (racing (raised failure_error)) k = tt
handler_proceeds-Fits exit (racing (raised cancelled_error)) k = tt
handler_proceeds-Fits exit (racing (raised other_error)) k = tt
handler_proceeds-Fits pending (racing succeeded) k = tt
handler_proceeds-Fits result (racing succeeded) k = refl
handler_proceeds-Fits (exception x) (racing succeeded) k = refl
handler_proceeds-Fits pending (racing at_activity) k = tt
handler_proceeds-Fits result (racing at_activity) k = tt
handler_proceeds-Fits (exception x) (racing at_activity) k = tt
handler_proceeds-Fits exit (compensating e) k = tt
handler_proceeds-Fits exit (answered r) k = k

activity_ends-Fits :
    (exit : Exit) (ok : Bool) (h : Handler) → Fits exit h → Fits exit (activity_ends ok h)
unfolding activity_ends
activity_ends-Fits exit true (racing at_activity) k = tt
activity_ends-Fits exit false (racing at_activity) k = tt
activity_ends-Fits exit true (racing succeeded) k = tt
activity_ends-Fits exit false (racing succeeded) k = tt
activity_ends-Fits exit true (racing (raised e)) k = tt
activity_ends-Fits exit false (racing (raised e)) k = tt
activity_ends-Fits exit true (compensating e) k = tt
activity_ends-Fits exit false (compensating e) k = tt
activity_ends-Fits exit true (answered r) k = k
activity_ends-Fits exit false (answered r) k = k

-- A pending exit fits every other, since no handler has reported success.
Fits-pending : (exit : Exit) (h : Handler) → Fits pending h → Fits exit h
Fits-pending exit (racing t) k = tt
Fits-pending exit (compensating e) k = tt
Fits-pending exit (answered update_result) k = ground (arith, k)
Fits-pending exit (answered compensation_failed) k = tt
Fits-pending exit (answered (raised_to_caller e)) k = tt

All-Fits : (exit : Exit) (hs : List Handler) → All (Fits pending) hs → All (Fits exit) hs
All-Fits exit [] a = tt
All-Fits exit (h ∷ hs) a = (Fits-pending exit h a.0, All-Fits exit hs a.1)

-- While the run is open, its phase says nothing of the handlers.
Coherent-is_open :
    (m : Main) (exit : Exit) (c : Bool) (hs ks : List Handler)
    → is_open m ≡ true
    → Coherent m exit c hs
    → Coherent m exit c ks
unfolding Coherent
Coherent-is_open waiting_for_start exit c hs ks o k = k
Coherent-is_open blocked exit c hs ks o k = k
Coherent-is_open returning exit c hs ks o k = k
Coherent-is_open returned exit c hs ks o k = ground (arith, o)
Coherent-is_open task_failed exit c hs ks o k = k
Coherent-is_open (failing e) exit c hs ks o k = k
Coherent-is_open (undoing e) exit c hs ks o k = k
Coherent-is_open (ended e) exit c hs ks o k = k

-- Both futures of a run that has an open phase, written out.
abbrev SafeAt : Main → Workflow → Type 0
SafeAt m w =
    Coherent m w.workflow_exit w.workflow_compensation_done w.handlers
    × All (Fits w.workflow_exit) w.handlers

caught-IsSafe :
    (w : Workflow) (e : Exception)
    → is_workflow_exit_exception e ≡ true
    → w.workflow_exit ≡ pending
    → w.workflow_compensation_done ≡ false
    → All (Fits w.workflow_exit) w.handlers
    → IsSafe (caught e w.workflow_exit w)
unfolding IsSafe Coherent
caught-IsSafe w e x p c a =
    let fits = All-Fits (exception e) w.handlers (subst (λ exit. All (Fits exit) w.handlers) p a) in
    rw (p, x) ((refl, c), fits)

proceed-IsSafe :
    (w : Workflow) (m : Main) → w.main ≡ m → SafeAt m w → IsSafe w → IsSafe (proceed m w)
unfolding IsSafe Coherent
proceed-IsSafe w waiting_for_start e h k = elim (Bool-cases w.update_started) [
  | inr idle ↦ rw idle k
  | inl started ↦
      subst (λ b. IsSafe (if b then application_logic w.exit_type w else w)) (sym started)
        (go w.exit_type)
]
  where
    go : (x : ExitType) → IsSafe (application_logic x w)
    go success = (
      (refl, h.0.1),
      All-Fits result w.handlers (subst (λ exit. All (Fits exit) w.handlers) h.0.0 h.1),
    )
    go failure = caught-IsSafe w failure_error refl h.0.0 h.0.1 h.1
    go cancellation = (h.0, h.1)
proceed-IsSafe w blocked e h k = k
proceed-IsSafe w returning e h k = elim (Bool-cases (all_handlers_finished w.handlers)) [
  | inl done ↦ rw done ((h.0.0, h.0.1, done), h.1)
  | inr going ↦ rw going k
]
proceed-IsSafe w returned e h k = k
proceed-IsSafe w task_failed e h k = k
proceed-IsSafe w (failing x) e h k = elim (Bool-cases (all_handlers_finished w.handlers)) [
  | inl done ↦ rw done (h.0, h.1)
  | inr going ↦ rw going k
]
proceed-IsSafe w (undoing x) e h k = k
proceed-IsSafe w (ended x) e h k = k

compensate-IsSafe :
    (w : Workflow) (ok : Bool) (m : Main) → SafeAt m w → IsSafe w → IsSafe (compensate ok m w)
unfolding IsSafe Coherent
compensate-IsSafe w true (undoing x) h k = ((ap is_exception h.0.0, (λ e. h.0.0)), h.1)
compensate-IsSafe w false (undoing x) h k =
    ((ap is_exception h.0.0, (λ e. ground (arith, e, h.0.1))), h.1)
compensate-IsSafe w ok m h k = elim ok as (λ b. IsSafe (compensate b m w)) [ true ↦ k | false ↦ k ]

cancel-IsSafe : (w : Workflow) (m : Main) → SafeAt m w → IsSafe w → IsSafe (cancel m w)
unfolding IsSafe Coherent
cancel-IsSafe w waiting_for_start h k = caught-IsSafe w cancelled_error refl h.0.0 h.0.1 h.1
cancel-IsSafe w blocked h k = caught-IsSafe w cancelled_error refl h.0.0 h.0.1 h.1
cancel-IsSafe w returning h k =
    subst (λ x. IsSafe (caught cancelled_error x w)) (sym h.0.0) (h.0, h.1)
cancel-IsSafe w (failing x) h k = ((ap is_exception h.0.0, (λ e. ground (arith, e, h.0.1))), h.1)
cancel-IsSafe w (undoing x) h k = ((ap is_exception h.0.0, (λ e. ground (arith, e, h.0.1))), h.1)
cancel-IsSafe w returned h k = k
cancel-IsSafe w task_failed h k = k
cancel-IsSafe w (ended x) h k = k

turn-IsSafe : (w : Workflow) (e : Event) → is_open w.main ≡ true → IsSafe w → IsSafe (turn w e)
unfolding turn IsSafe
turn-IsSafe w update o k = (
  Coherent-is_open w.main _ _ w.handlers _ o k.0,
  All-append (Fits w.workflow_exit) w.handlers (racing at_activity ∷ []) k.1 (tt, tt),
)
turn-IsSafe w run_proceeds o k = proceed-IsSafe w w.main refl k k
turn-IsSafe w cancel_requested o k = cancel-IsSafe w w.main k k
turn-IsSafe w (handler_goes_on n) o k = (
  Coherent-is_open w.main _ _ w.handlers _ o k.0,
  All-at n _ w.handlers (handler_proceeds-Fits w.workflow_exit) k.1,
)
turn-IsSafe w (handler_activity ok n) o k = (
  Coherent-is_open w.main _ _ w.handlers _ o k.0,
  All-at n _ w.handlers (activity_ends-Fits w.workflow_exit ok) k.1,
)
turn-IsSafe w (compensation ok) o k = compensate-IsSafe w ok w.main k k

-- Every event keeps the run safe. It has returned only with the exit known and every handler
-- answered; its compensation is done only after a failure or a cancellation, which it ends with; a
-- handler has reported success only after the exit was known.
pub step-IsSafe : (w : Workflow) (e : Event) → IsSafe w → IsSafe (step w e)
unfolding step
step-IsSafe w e k = elim (Bool-cases (is_open w.main)) [
  | inr closed ↦ rw closed k
  | inl opened ↦ rw opened (turn-IsSafe w e opened k)
]

run_events-IsSafe : (w : Workflow) (es : List Event) → IsSafe w → IsSafe (run_events w es)
unfolding run_events
run_events-IsSafe w [] k = k
run_events-IsSafe w (e ∷ es) k = run_events-IsSafe (step w e) es (step-IsSafe w e k)

-- From the beginning, whatever the events: when the run has returned, all handlers have been
-- answered; and the workflow's compensation is never done for a run that returns.
pub run_events-returned :
    (x : ExitType) (es : List Event)
    → (run_events (init x) es).main ≡ returned
    → (all_handlers_finished (run_events (init x) es).handlers ≡ true)
      × ((run_events (init x) es).workflow_compensation_done ≡ false)
unfolding init IsSafe Coherent
run_events-returned x es e =
    let w = run_events (init x) es in
    let safe = run_events-IsSafe (init x) es ((refl, refl), tt) in
    let at_end =
      subst (λ m. Coherent m w.workflow_exit w.workflow_compensation_done w.handlers) e safe.0 in
    (at_end.2, at_end.1)
