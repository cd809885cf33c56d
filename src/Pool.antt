-- ===== src/Pool.antt =====
-- resource_pool/pool_client/resource_pool_workflow.py and shared.py: a workflow that lends resources
-- to other workflows. Its main loop awaits while it signals the next holder; until that signal is
-- answered the assignment stands in `pending`, and the signal handlers run in between.
pub mod Invariant
pub mod Rebuild
pub mod Steps
pub mod Order
pub mod Release
pub mod User
mod Tests
use samples_python.Base.{
  String, Bool, true, false, not, ◌&&◌, ◌||◌, Option, none, some, List, [], ◌∷◌, ◌++◌,
  if◌then◌else◌, is_none, string_eq, get, set_item, del_item,
}

pub record AcquireResponse : Type 0 where
  pub release_key : String
  pub resource : String

pub record InternalAcquireRequest : Type 0 where
  pub workflow_id : String
  pub release_signal : Option String

pub record ResourcePoolWorkflowInput : Type 0 where
  pub resources : List (String × Option InternalAcquireRequest)
  pub waiters : List InternalAcquireRequest

-- `assign_resource` at `await requester.signal(…)`.
pub record Pending : Type 0 where
  pub resource : String
  pub internal_request : InternalAcquireRequest
  pub release_signal : String

pub record ResourcePoolWorkflow : Type 0 where
  pub resources : List (String × Option InternalAcquireRequest)
  pub waiters : List InternalAcquireRequest
  pub release_key_to_resource : List (String × String)
  pub pending : Option Pending

-- One round of the loop in `__init__`.
unfoldable pub index_holder :
    String → Option InternalAcquireRequest → List (String × String) → List (String × String)
index_holder resource none keys = keys
index_holder resource (some holder) keys = elim holder.release_signal [
  | none ↦ keys
  | some k ↦ set_item k resource keys
]

unfoldable pub index_keys :
    List (String × Option InternalAcquireRequest) → List (String × String) → List (String × String)
unfolding index_holder
index_keys [] keys = keys
index_keys ((resource, holder) ∷ items) keys = index_keys items (index_holder resource holder keys)

unfoldable pub init : ResourcePoolWorkflowInput → ResourcePoolWorkflow
init input = record {
  resources = input.resources;
  waiters = input.waiters;
  release_key_to_resource = index_keys input.resources [];
  pending = none;
}

-- A resource that is there keeps its holder.
unfoldable pub add_new :
    List String
    → List (String × Option InternalAcquireRequest)
    → List (String × Option InternalAcquireRequest)
add_new [] held = held
add_new (resource ∷ resources) held =
    add_new resources (if is_none (get resource held) then set_item resource none held else held)

unfoldable pub add_resources : ResourcePoolWorkflow → List String → ResourcePoolWorkflow
unfolding add_new
add_resources w resources = record w { resources = add_new resources w.resources }

unfoldable pub acquire_resource : ResourcePoolWorkflow → String → ResourcePoolWorkflow
acquire_resource w workflow_id = record w {
  waiters = w.waiters ++ record { workflow_id = workflow_id; release_signal = none } ∷ [];
}

pub data Reply : Type 0 where
  released unknown_release_key not_held key_error : Reply

-- `self.resources[resource]`, `none` where there is no such key, and the rest of the handler.
release_held :
    Option (Option InternalAcquireRequest)
    → String
    → String
    → ResourcePoolWorkflow
    → ResourcePoolWorkflow × Reply
release_held none key resource w = (w, key_error)
release_held (some none) key resource w = (w, not_held)
release_held (some (some holder)) key resource w = (
  record w {
    resources = set_item resource none w.resources;
    release_key_to_resource = del_item key w.release_key_to_resource;
  },
  released,
)

release_known : Option String → String → ResourcePoolWorkflow → ResourcePoolWorkflow × Reply
unfolding release_held
release_known none key w = (w, unknown_release_key)
release_known (some resource) key w = release_held (get resource w.resources) key resource w

unfoldable pub release_resource :
    ResourcePoolWorkflow → AcquireResponse → ResourcePoolWorkflow × Reply
unfolding release_known
release_resource w r = release_known (get r.release_key w.release_key_to_resource) r.release_key w

-- The first resource with no holder.
unfoldable pub first_free : List (String × Option InternalAcquireRequest) → Option String
first_free [] = none
first_free ((resource, holder) ∷ items) = if is_none holder then some resource else first_free items

unfoldable pub get_free_resource : ResourcePoolWorkflow → Option String
unfolding first_free
get_free_resource w = first_free w.resources

abbrev pub has_waiter : List InternalAcquireRequest → Bool
has_waiter [] = false
has_waiter (_ ∷ _) = true

unfoldable pub can_assign_resource : ResourcePoolWorkflow → Bool
can_assign_resource w = has_waiter w.waiters && not (is_none (get_free_resource w))

-- `assign_next_resource` up to its await, with the answer of `workflow.uuid4()`: whether a
-- resource is being assigned.
assign_to :
    List InternalAcquireRequest
    → Option String
    → String
    → ResourcePoolWorkflow
    → ResourcePoolWorkflow × Bool
assign_to [] free uuid w = (w, false)
assign_to (next_waiter ∷ rest) none uuid w = (w, false)
assign_to (next_waiter ∷ rest) (some resource) uuid w = (
  record w {
    waiters = rest;
    pending =
        some
          (record { resource = resource; internal_request = next_waiter; release_signal = uuid });
  },
  true,
)

unfoldable pub assign_next_resource : ResourcePoolWorkflow → String → ResourcePoolWorkflow × Bool
unfolding assign_to
assign_next_resource w uuid = assign_to w.waiters (get_free_resource w) uuid w

-- How the external workflow's signal ends: `other_error` is an ApplicationError of another type.
pub data SignalResult : Type 0 where
  delivered external_workflow_execution_not_found other_error : SignalResult

register : Pending → ResourcePoolWorkflow → ResourcePoolWorkflow
register p w = record w {
  resources =
      set_item p.resource
        (some (record (p.internal_request) { release_signal = some p.release_signal })) w.resources;
  release_key_to_resource = set_item p.release_signal p.resource w.release_key_to_resource;
}

-- The rest of `assign_resource`; the Boolean says that the exception is raised again.
finish_assign : Option Pending → SignalResult → ResourcePoolWorkflow → ResourcePoolWorkflow × Bool
unfolding register
finish_assign none r w = (w, false)
finish_assign (some p) delivered w = (register p (record w { pending = none }), false)
finish_assign (some p) external_workflow_execution_not_found w =
    (record w { pending = none }, false)
finish_assign (some p) other_error w = (record w { pending = none }, true)

unfoldable pub assign_resource : ResourcePoolWorkflow → SignalResult → ResourcePoolWorkflow × Bool
unfolding finish_assign
assign_resource w r = finish_assign w.pending r w

-- No handler of this workflow awaits, so all handlers are finished whenever `run` looks.
unfoldable pub should_continue_as_new : ResourcePoolWorkflow → (suggested : Bool) → Bool
should_continue_as_new w suggested = suggested

unfoldable pub next_input : ResourcePoolWorkflow → ResourcePoolWorkflowInput
next_input w = record { resources = w.resources; waiters = w.waiters }

-- A round of the loop in `run`: it waits, or goes on in the new state, or continues as new.
pub data Round : Type 0 where
  waits : Round
  assigns : ResourcePoolWorkflow → Round
  continues_as_new : ResourcePoolWorkflowInput → Round

unfoldable pub run_round : ResourcePoolWorkflow → (suggested : Bool) → (uuid : String) → Round
run_round w suggested uuid =
    let (w', assigned) = assign_next_resource w uuid in
    if can_assign_resource w || should_continue_as_new w suggested
    then (if assigned
        then assigns w'
        else if should_continue_as_new w suggested
        then continues_as_new (next_input w)
        else waits)
    else waits

abbrev pub after_round : ResourcePoolWorkflow → Round → ResourcePoolWorkflow
after_round w waits = w
after_round w (assigns w') = w'
after_round w (continues_as_new input) = init input

-- What the event loop serves: a signal, a round of `run` that is not at its await, or the end of
-- that await.
pub data Event : Type 0 where
  adds : List String → Event
  acquires : (workflow_id : String) → Event
  releases : AcquireResponse → Event
  rounds : (suggested : Bool) → (uuid : String) → Event
  answers : SignalResult → Event

-- `run` starts a round only when the one before is over.
round : Option Pending → Bool → String → ResourcePoolWorkflow → ResourcePoolWorkflow
round none suggested uuid w = after_round w (run_round w suggested uuid)
round (some p) suggested uuid w = w

unfoldable pub step : ResourcePoolWorkflow → Event → ResourcePoolWorkflow
unfolding round
step w (adds resources) = add_resources w resources
step w (acquires workflow_id) = acquire_resource w workflow_id
step w (releases r) = (release_resource w r).0
step w (rounds suggested uuid) = round w.pending suggested uuid w
step w (answers r) = (assign_resource w r).0

unfoldable pub run_events : ResourcePoolWorkflow → List Event → ResourcePoolWorkflow
run_events w [] = w
run_events w (e ∷ es) = run_events (step w e) es
