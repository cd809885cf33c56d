-- ===== src/Pool/Tests.antt =====
-- Runs of the pool and of its users at concrete inputs.
use samples_python.Base.{
  String, string_eq, true, false, none, some, List, [], ◌∷◌, ◌++◌, ◌≡◌, refl, get, set_item, ◌⊎◌,
}
use samples_python.Pool.{
  AcquireResponse, Pending, ResourcePoolWorkflow, index_keys, init, add_resources, acquire_resource,
  unknown_release_key, released, release_resource, get_free_resource, can_assign_resource,
  assign_next_resource, delivered, assign_resource, next_input, run_round, Event, adds, acquires,
  releases, rounds, answers, step, run_events,
}
use samples_python.Pool.Invariant.{key_of, IsConsistent}
use samples_python.Pool.Rebuild.{init-next_input}
use samples_python.Pool.Steps.{step-IsConsistent, init_empty-IsConsistent}
use samples_python.Pool.Order.{workflow_ids, requested_by, served_by, run_events-order}
use samples_python.Pool.Release.{Frees, release_resource_cases, release-before-register}
use samples_python.Pool.User.{ResourceUserWorkflowInput, run}
use samples_python.Pool.User.Giving.{releases_of, handed_on, run-releases}

abbrev start : ResourcePoolWorkflow
start = init (record { resources = []; waiters = [] })

abbrev after_add : ResourcePoolWorkflow
after_add = step start (adds ("r1" ∷ "r2" ∷ []))

abbrev after_ask : ResourcePoolWorkflow
after_ask = step after_add (acquires "wf-a")

-- The pool has sent its signal to wf-a.
abbrev signalled : ResourcePoolWorkflow
signalled = step after_ask (rounds false "key-1")

-- The signal was answered, so wf-a holds r1.
abbrev lent : ResourcePoolWorkflow
lent = step signalled (answers delivered)

after_ask-IsConsistent : IsConsistent after_ask
after_ask-IsConsistent =
    step-IsConsistent after_add (acquires "wf-a")
      (step-IsConsistent start (adds ("r1" ∷ "r2" ∷ [])) init_empty-IsConsistent tt) tt

signalled-IsConsistent : IsConsistent signalled
unfolding step init index_keys get add_resources acquire_resource
signalled-IsConsistent =
    step-IsConsistent after_ask (rounds false "key-1") after_ask-IsConsistent refl

lent-IsConsistent : IsConsistent lent
lent-IsConsistent = step-IsConsistent signalled (answers delivered) signalled-IsConsistent tt

abbrev give_back : AcquireResponse
give_back = record { release_key = "key-1"; resource = "r1" }

step-IsConsistent_example : IsConsistent (step lent (releases give_back))
step-IsConsistent_example = step-IsConsistent lent (releases give_back) lent-IsConsistent tt

init-next_input_example :
    get "key-1" (init (next_input lent)).release_key_to_resource
    ≡ get "key-1" lent.release_key_to_resource
init-next_input_example = (init-next_input lent lent-IsConsistent).2 "key-1"

abbrev busy_day : List Event
busy_day =
    acquires "wf-b"
    ∷ rounds false "key-1"
    ∷ acquires "wf-c"
    ∷ answers delivered
    ∷ rounds true "key-2"
    ∷ []

run_events-order_example :
    served_by after_ask busy_day ++ workflow_ids (run_events after_ask busy_day).waiters
    ≡ workflow_ids after_ask.waiters ++ requested_by busy_day
run_events-order_example = run_events-order after_ask busy_day

release_resource_cases_example :
    ((get "key-1" lent.release_key_to_resource ≡ none)
      × (release_resource lent give_back ≡ (lent, unknown_release_key)))
    ⊎ ((r : String) × (get "key-1" lent.release_key_to_resource ≡ some r)
        × ((release_resource lent give_back).1 ≡ released)
        × Frees lent (release_resource lent give_back).0 "key-1" r)
release_resource_cases_example = release_resource_cases lent give_back lent-IsConsistent

abbrev pending_one : Pending
pending_one = record {
  resource = "r1";
  internal_request = record { workflow_id = "wf-a"; release_signal = none };
  release_signal = "key-1";
}

release-before-register_example :
    key_of
      (get "r1" (assign_resource (release_resource signalled give_back).0 delivered).0.resources)
    ≡ some "key-1"
unfolding step init add_resources acquire_resource run_round assign_next_resource
    can_assign_resource get_free_resource get set_item
release-before-register_example =
    (release-before-register signalled pending_one signalled-IsConsistent refl).1

abbrev user_input : ResourceUserWorkflowInput
user_input = record {
  resource_pool_workflow_id = "resource_pool";
  iteration_to_fail_after = some "second";
  should_continue_as_new = true;
  already_acquired_resource = none;
}

run-releases_example :
    releases_of (run user_input "wf-a" (give_back ∷ []) (λ _. true)).0
      ++ handed_on (run user_input "wf-a" (give_back ∷ []) (λ _. true)).1
    ≡ give_back ∷ []
run-releases_example = run-releases user_input "wf-a" (give_back ∷ []) (λ _. true)
