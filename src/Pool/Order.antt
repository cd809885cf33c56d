-- ===== src/Pool/Order.antt =====
-- The order in which the pool serves its requests.
use samples_python.Base.{
  String, Bool, true, false, ◌||◌, Option, none, some, List, [], ◌∷◌, ◌++◌, map, ◌≡◌, refl, sym,
  ◌∙◌, ap, arith, if◌then◌else◌,
}
use mathlib.Core.List.{append-nil, append_assoc, map-append}
use samples_python.Pool.{
  AcquireResponse, InternalAcquireRequest, Pending, ResourcePoolWorkflow, init, add_resources,
  acquire_resource, release_held, release_known, release_resource, get_free_resource,
  can_assign_resource, assign_to, assign_next_resource, SignalResult, delivered,
  external_workflow_execution_not_found, other_error, register, finish_assign, assign_resource,
  should_continue_as_new, next_input, waits, assigns, continues_as_new, run_round, after_round,
  Event, adds, acquires, releases, rounds, answers, round, step, run_events,
}

abbrev pub workflow_ids : List InternalAcquireRequest → List String
workflow_ids = map (λ r. r.workflow_id)

-- The requests that a turn brings in.
abbrev pub requested : Event → List String
requested (acquires workflow_id) = workflow_id ∷ []
requested _ = []

-- The request that a turn takes up: it awaits the answer after the turn and not before.
abbrev pub newly_pending : (before after : Option Pending) → List String
newly_pending none (some p) = p.internal_request.workflow_id ∷ []
newly_pending none none = []
newly_pending (some p) after = []

abbrev pub served : ResourcePoolWorkflow → Event → List String
served w e = newly_pending w.pending (step w e).pending

pub requested_by : List Event → List String
requested_by [] = []
requested_by (e ∷ es) = requested e ++ requested_by es

pub served_by : ResourcePoolWorkflow → List Event → List String
served_by w [] = []
served_by w (e ∷ es) = served w e ++ served_by (step w e) es

-- Waiters and pending assignment stay.
abbrev Keeps : ResourcePoolWorkflow → ResourcePoolWorkflow → Type 0
Keeps w u = (u.waiters ≡ w.waiters) × (u.pending ≡ w.pending)

newly_pending_same : (p : Option Pending) → newly_pending p p ≡ []
newly_pending_same none = refl
newly_pending_same (some p) = refl

Keeps-order :
    (w u : ResourcePoolWorkflow)
    → Keeps w u
    → newly_pending w.pending u.pending ++ workflow_ids u.waiters ≡ workflow_ids w.waiters ++ []
Keeps-order w u (q, p) =
    rw (p, q, newly_pending_same w.pending) (sym (append-nil (workflow_ids w.waiters)))

release-Keeps : (w : ResourcePoolWorkflow) (a : AcquireResponse) → Keeps w (release_resource w a).0
unfolding release_resource release_known release_held
release-Keeps w a = (ground arith, ground arith)

assign_to-order :
    (waiters : List InternalAcquireRequest) (free : Option String) (uuid : String)
    (w : ResourcePoolWorkflow)
    → w.waiters ≡ waiters
    → w.pending ≡ none
    → newly_pending none (assign_to waiters free uuid w).0.pending
        ++ workflow_ids (assign_to waiters free uuid w).0.waiters
      ≡ workflow_ids waiters ++ []
unfolding assign_to
assign_to-order [] free uuid w e p = rw (e, p)
assign_to-order (x ∷ xs) none uuid w e p = rw (e, p) (sym (append-nil (workflow_ids (x ∷ xs))))
assign_to-order (x ∷ xs) (some r) uuid w e p = sym (append-nil (workflow_ids (x ∷ xs)))

round-order :
    (w w' : ResourcePoolWorkflow) (ready assigned suggested : Bool)
    → w.pending ≡ none
    → newly_pending none w'.pending ++ workflow_ids w'.waiters ≡ workflow_ids w.waiters ++ []
    → let u = after_round w (
        if ready
        then (if assigned
            then assigns w'
            else if suggested
            then continues_as_new (next_input w)
            else waits)
        else waits) in
      newly_pending none u.pending ++ workflow_ids u.waiters ≡ workflow_ids w.waiters ++ []
unfolding init next_input
round-order w w' false assigned suggested p e = rw p (sym (append-nil (workflow_ids w.waiters)))
round-order w w' true true suggested p e = e
round-order w w' true false true p e = sym (append-nil (workflow_ids w.waiters))
round-order w w' true false false p e = rw p (sym (append-nil (workflow_ids w.waiters)))

answer-order :
    (p : Option Pending) (r : SignalResult) (w : ResourcePoolWorkflow)
    → w.pending ≡ p
    → newly_pending p (finish_assign p r w).0.pending
        ++ workflow_ids (finish_assign p r w).0.waiters
      ≡ workflow_ids w.waiters ++ []
unfolding finish_assign register
answer-order none r w e = rw e (sym (append-nil (workflow_ids w.waiters)))
answer-order (some p) delivered w e = sym (append-nil (workflow_ids w.waiters))
answer-order (some p) external_workflow_execution_not_found w e =
    sym (append-nil (workflow_ids w.waiters))
answer-order (some p) other_error w e = sym (append-nil (workflow_ids w.waiters))

step-order :
    (w : ResourcePoolWorkflow) (e : Event)
    → served w e ++ workflow_ids (step w e).waiters ≡ workflow_ids w.waiters ++ requested e
unfolding step add_resources acquire_resource assign_resource run_round assign_next_resource
step-order w (adds rs) = Keeps-order w (add_resources w rs) (refl, refl)
step-order w (acquires id) = rw newly_pending_same (map-append (λ r. r.workflow_id) w.waiters _)
step-order w (releases a) = Keeps-order w (release_resource w a).0 (release-Keeps w a)
step-order w (rounds suggested uuid) = go w.pending refl
  where
    go :
        (p : Option Pending)
        → w.pending ≡ p
        → newly_pending p (round p suggested uuid w).pending
            ++ workflow_ids (round p suggested uuid w).waiters
          ≡ workflow_ids w.waiters ++ []
    go none e =
        round-order w (assign_next_resource w uuid).0
          (can_assign_resource w || should_continue_as_new w suggested)
          (assign_next_resource w uuid).1 (should_continue_as_new w suggested) e
          (assign_to-order w.waiters (get_free_resource w) uuid w refl e)
    go (some p) e = rw e (sym (append-nil (workflow_ids w.waiters)))
step-order w (answers r) = answer-order w.pending r w refl

-- Requests are served in the order in which they come, none twice and none left out: in any history
-- the requests that were taken up, followed by those that still wait, are those that waited at
-- first, followed by those that came. Continuing as new on the way changes nothing of this.
pub run_events-order :
    (w : ResourcePoolWorkflow) (es : List Event)
    → served_by w es ++ workflow_ids (run_events w es).waiters
      ≡ workflow_ids w.waiters ++ requested_by es
unfolding run_events served_by requested_by
run_events-order w [] = sym (append-nil (workflow_ids w.waiters))
run_events-order w (e ∷ es) =
    append_assoc (served w e) (served_by (step w e) es) _
    ∙ ap (λ (l : List String). served w e ++ l) (run_events-order (step w e) es)
    ∙ sym (append_assoc (served w e) (workflow_ids (step w e).waiters) (requested_by es))
    ∙ ap (λ (l : List String). l ++ requested_by es) (step-order w e)
    ∙ append_assoc (workflow_ids w.waiters) (requested e) (requested_by es)

-- A round takes up a request exactly if one waits and a resource is free, and continues as new only
-- if it cannot, with the resources and the waiters as they are.
pub run_round_cases :
    (w : ResourcePoolWorkflow) (suggested : Bool) (uuid : String)
    → (can_assign_resource w ≡ true
        → run_round w suggested uuid ≡ assigns (assign_next_resource w uuid).0)
      × (can_assign_resource w ≡ false
          → run_round w suggested uuid
            ≡ (if suggested then continues_as_new (next_input w) else waits))
unfolding run_round can_assign_resource assign_next_resource assign_to should_continue_as_new
run_round_cases w suggested uuid = (ground arith, ground arith)
