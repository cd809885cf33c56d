-- ===== src/Pool/User.antt =====
-- resource_pool/pool_client/resource_pool_client.py and resource_user_workflow.py: a workflow that
-- borrows a resource for its activities and gives it back, or hands it on when it continues as new.
pub mod Giving
use samples_python.Base.{
  ℕ, String, Bool, true, false, not, ◌&&◌, Option, none, some, List, [], ◌∷◌, ◌++◌, ◌≡◌, refl, ap,
  inl, inr, ◌⊎◌, arith, if◌then◌else◌, length, string_eq, ◌==◌, Bool-cases,
}
use samples_python.Pool.{AcquireResponse}

pub record DetachedResource : Type 0 where
  pub resource : String
  pub release_key : String

pub record AcquiredResource : Type 0 where
  pub resource : String
  pub release_key : String
  pub detached : Bool

-- The resource is marked, and what is handed on names it.
pub detach : AcquiredResource → AcquiredResource × DetachedResource
detach r =
    (record r { detached = true }, record { resource = r.resource; release_key = r.release_key })

pub record ResourcePoolClient : Type 0 where
  pub pool_workflow_id : String
  pub acquired_resources : List AcquiredResource

-- `none` is the RuntimeError: the workflow has a handler for this pool's signal already.
pub new_client : (registered : Bool) → String → Option ResourcePoolClient
new_client true pool_workflow_id = none
new_client false pool_workflow_id =
    some (record { pool_workflow_id = pool_workflow_id; acquired_resources = [] })

pub handle_acquire_response : ResourcePoolClient → AcquireResponse → ResourcePoolClient
handle_acquire_response c r = record c {
  acquired_resources =
      c.acquired_resources
      ++ record { resource = r.resource; release_key = r.release_key; detached = false } ∷ [];
}

-- The responses that come within the time that `acquire_resource` waits.
pub handle_responses : ResourcePoolClient → List AcquireResponse → ResourcePoolClient
unfolding handle_acquire_response
handle_responses c [] = c
handle_responses c (r ∷ rs) = handle_responses (handle_acquire_response c r) rs

pub record ResourceUserWorkflowInput : Type 0 where
  pub resource_pool_workflow_id : String
  pub iteration_to_fail_after : Option String
  pub should_continue_as_new : Bool
  pub already_acquired_resource : Option DetachedResource

-- What the workflow asks of the server.
pub data Effect : Type 0 where
  signals_acquire : (workflow_id : String) → Effect
  signals_release : AcquireResponse → Effect
  uses_resource : (resource iteration : String) → Effect

pub data Exit : Type 0 where
  returned wait_timed_out activity_error fail_workflow handler_registered : Exit
  continued : ResourceUserWorkflowInput → Exit

abbrev is_iteration : String → Option String → Bool
is_iteration iteration none = false
is_iteration iteration (some other) = iteration == other

-- The loop over the iterations, with whether each activity succeeds: what it did, and the exception
-- that left it.
pub iterate :
    ResourceUserWorkflowInput → String → (String → Bool) → List String → List Effect × Option Exit
iterate input resource succeeds [] = ([], none)
iterate input resource succeeds (iteration ∷ iterations) =
    let (effects, exit) = iterate input resource succeeds iterations in
    if not (succeeds iteration)
    then (uses_resource resource iteration ∷ [], some activity_error)
    else if is_iteration iteration input.iteration_to_fail_after
    then (uses_resource resource iteration ∷ [], some fail_workflow)
    else (uses_resource resource iteration ∷ effects, exit)

-- The end of the `async with` body: the resource as the body left it, and how it ended.
pub end_body : ResourceUserWorkflowInput → AcquiredResource → Option Exit → AcquiredResource × Exit
unfolding detach
end_body input r (some exit) = (r, exit)
end_body input r none =
    let (detached, handed_on) = detach r in
    if input.should_continue_as_new
    then (
      detached,
      continued (record {
        resource_pool_workflow_id = input.resource_pool_workflow_id;
        iteration_to_fail_after = input.iteration_to_fail_after;
        should_continue_as_new = false;
        already_acquired_resource = some handed_on;
      }),
    )
    else (r, returned)

abbrev response_of : AcquiredResource → AcquireResponse
response_of r = record { release_key = r.release_key; resource = r.resource }

-- `finally: if not resource.detached: send the release signal`
pub release_unless_detached : AcquiredResource → List Effect
release_unless_detached r = if r.detached then [] else signals_release (response_of r) ∷ []

pub with_resource :
    ResourceUserWorkflowInput → (String → Bool) → AcquiredResource → List Effect × Exit
unfolding end_body release_unless_detached
with_resource input succeeds r =
    let (used, left) = iterate input r.resource succeeds ("first" ∷ "second" ∷ []) in
    let (r', exit) = end_body input r left in (used ++ release_unless_detached r', exit)

-- `self.acquired_resources.pop(0)` once there is one, or the timeout.
pub first_acquired : List AcquiredResource → Option AcquiredResource
first_acquired [] = none
first_acquired (r ∷ rs) = some r

-- The part that waits: none if the wait timed out, and the signals sent.
pub acquire :
    String
    → ResourcePoolClient
    → Option DetachedResource
    → List AcquireResponse
    → List Effect × Option AcquiredResource
unfolding first_acquired handle_responses
acquire workflow_id c none responses = (
  signals_acquire workflow_id ∷ [],
  first_acquired (handle_responses c responses).acquired_resources,
)
acquire workflow_id c (some d) responses =
    ([], some (record { resource = d.resource; release_key = d.release_key; detached = false }))

use_acquired :
    ResourceUserWorkflowInput
    → (String → Bool)
    → List Effect × Option AcquiredResource
    → List Effect × Exit
unfolding with_resource
use_acquired input succeeds (sent, none) = (sent, wait_timed_out)
use_acquired input succeeds (sent, some r) =
    let (effects, exit) = with_resource input succeeds r in (sent ++ effects, exit)

run_with :
    ResourceUserWorkflowInput
    → String
    → Option ResourcePoolClient
    → List AcquireResponse
    → (String → Bool)
    → List Effect × Exit
unfolding acquire use_acquired
run_with input workflow_id none responses succeeds = ([], handler_registered)
run_with input workflow_id (some c) responses succeeds =
    use_acquired input succeeds (acquire workflow_id c input.already_acquired_resource responses)

-- The whole run. A fresh workflow has no handler for the pool's signal.
pub run :
    ResourceUserWorkflowInput → String → List AcquireResponse → (String → Bool) → List Effect × Exit
unfolding new_client run_with
run input workflow_id responses succeeds =
    run_with input workflow_id (new_client false input.resource_pool_workflow_id) responses succeeds
