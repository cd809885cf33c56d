-- ===== src/Cluster.antt =====
-- message_passing/safe_message_handlers/workflow.py and activities.py: a workflow that assigns the
-- nodes of a cluster to jobs. A handler that awaits an activity holds `nodes_lock`, so it runs in
-- three pieces: `request` up to the lock, `enter` from the lock to the activity, and `resume` from
-- the activity's result to the release of the lock.
pub mod Invariant
pub mod Locked
pub mod Assign
pub mod Delete
pub mod Moves
mod Tests
use samples_python.Base.{
  ℕ, ◌≤◌, String, Bool, true, false, not, ◌&&◌, ◌||◌, Option, none, some, List, [], ◌∷◌, ◌++◌, map,
  if◌then◌else◌, is_none, length, select, ◌==◌, contains, add, string_eq, get, set_item, set_all,
  keys_where, ℤ, lt_int, slice_to, ltb, nat_beq, ◌%◌,
}

pub record ClusterManagerState : Type 0 where
  pub cluster_started : Bool
  pub cluster_shutdown : Bool
  pub nodes : List (String × Option String)
  pub jobs_assigned : List String

pub record ClusterManagerInput : Type 0 where
  pub state : Option ClusterManagerState
  pub test_continue_as_new : Bool

pub record ClusterManagerResult : Type 0 where
  pub num_currently_assigned_nodes : ℕ
  pub num_bad_nodes : ℕ

-- The updates, with their inputs, and the health check of the main loop.
pub data Handler : Type 0 where
  assign_nodes_to_job : (total_num_nodes : ℤ) (job_name : String) → Handler
  delete_job : (job_name : String) → Handler
  perform_health_checks : Handler

-- Inside `async with self.nodes_lock`, at the await of the activity, with the activity's input.
pub data Holder : Type 0 where
  assigning : (nodes_to_assign : List String) (job_name : String) → Holder
  deleting : (nodes_to_unassign : List String) (job_name : String) → Holder
  checking : (assigned_nodes : List String) → Holder

pub record ClusterManagerWorkflow : Type 0 where
  pub state : ClusterManagerState
  pub max_history_length : Option ℕ
  pub sleep_interval_seconds : ℕ
  pub nodes_lock : Option Holder
  -- the handlers queued at the lock, first come first
  pub waiting : List Handler
  -- `run` awaits the activity `start_cluster`
  pub starting : Bool

pub data Error : Type 0 where
  assign_after_shutdown delete_after_shutdown activity_failed : Error
  too_few_nodes : (total_num_nodes : ℤ) (available : ℕ) → Error

-- What a piece of a handler ends with.
pub data Reply : Type 0 where
  -- the condition or the lock that it awaits is not there
  blocked : Reply
  -- at the lock; at the activity
  queued scheduled : Reply
  nodes_assigned : List String → Reply
  returned : Reply
  raised : Error → Reply

abbrev pub empty_state : ClusterManagerState
empty_state = record {
  cluster_started = false;
  cluster_shutdown = false;
  nodes = [];
  jobs_assigned = [];
}

abbrev pub state_of : Option ClusterManagerState → ClusterManagerState
state_of none = empty_state
state_of (some s) = s

unfoldable pub init : ClusterManagerInput → ClusterManagerWorkflow
init input = record {
  state = state_of input.state;
  max_history_length = if input.test_continue_as_new then some 120 else none;
  sleep_interval_seconds = if input.test_continue_as_new then 1 else 600;
  nodes_lock = none;
  waiting = [];
  starting = true;
}

-- `v == job_name` for a value of `nodes`
abbrev pub is_job : String → Option String → Bool
is_job job_name none = false
is_job job_name (some v) = v == job_name

-- `v is not None and v != "BAD!"`
abbrev pub in_use : Option String → Bool
in_use none = false
in_use (some v) = not (v == "BAD!")

unfoldable pub get_unassigned_nodes : ClusterManagerState → List String
get_unassigned_nodes s = keys_where is_none s.nodes

unfoldable pub get_bad_nodes : ClusterManagerState → List String
get_bad_nodes s = keys_where (is_job "BAD!") s.nodes

unfoldable pub get_assigned_nodes : ClusterManagerState → Option String → List String
get_assigned_nodes s none = keys_where in_use s.nodes
get_assigned_nodes s (some job_name) =
    if job_name == "" then keys_where in_use s.nodes else keys_where (is_job job_name) s.nodes

-- The updates up to the lock; the health check of `run` comes after the start of the cluster.
unfoldable pub request : ClusterManagerWorkflow → Handler → ClusterManagerWorkflow × Reply
request w perform_health_checks =
    if w.starting
    then (w, blocked)
    else (record w { waiting = w.waiting ++ perform_health_checks ∷ [] }, queued)
request w (assign_nodes_to_job n j) =
    if not w.state.cluster_started
    then (w, blocked)
    else if w.state.cluster_shutdown
    then (w, raised assign_after_shutdown)
    else (record w { waiting = w.waiting ++ assign_nodes_to_job n j ∷ [] }, queued)
request w (delete_job j) =
    if not w.state.cluster_started
    then (w, blocked)
    else if w.state.cluster_shutdown
    then (w, raised delete_after_shutdown)
    else (record w { waiting = w.waiting ++ delete_job j ∷ [] }, queued)

-- From the lock to the activity, or to the early return.
unfoldable pub begin : ClusterManagerWorkflow → Handler → ClusterManagerWorkflow × Reply
begin w (assign_nodes_to_job n j) =
    let unassigned_nodes = get_unassigned_nodes w.state in
    if contains j w.state.jobs_assigned
    then (w, nodes_assigned (get_assigned_nodes w.state (some j)))
    else if lt_int (length unassigned_nodes) n
    then (w, raised (too_few_nodes n (length unassigned_nodes)))
    else (record w { nodes_lock = some (assigning (slice_to n unassigned_nodes) j) }, scheduled)
begin w (delete_job j) =
    (record w { nodes_lock = some (deleting (keys_where (is_job j) w.state.nodes) j) }, scheduled)
begin w perform_health_checks =
    (record w { nodes_lock = some (checking (get_assigned_nodes w.state none)) }, scheduled)

take_lock : Option Holder → List Handler → ClusterManagerWorkflow → ClusterManagerWorkflow × Reply
take_lock (some h) hs w = (w, blocked)
take_lock none [] w = (w, blocked)
take_lock none (h ∷ hs) w = begin (record w { waiting = hs }) h

-- The lock goes to the handler that has waited longest.
unfoldable pub enter : ClusterManagerWorkflow → ClusterManagerWorkflow × Reply
unfolding take_lock
enter w = take_lock w.nodes_lock w.waiting w

-- What the activity gave: the bad nodes, or nothing that is read, or an exception.
pub data ActivityResult : Type 0 where
  completed : List String → ActivityResult
  failed : ActivityResult

-- `self.state.nodes[node] = value` over a list of nodes
unfoldable pub assign_all : List String → Option String → ClusterManagerState → ClusterManagerState
assign_all ns v s = record s { nodes = set_all ns v s.nodes }

-- From the activity's result to the end of the handler, the lock already released in `w`.
unfoldable pub complete :
    Holder → ActivityResult → ClusterManagerWorkflow → ClusterManagerWorkflow × Reply
unfolding assign_all
complete (assigning ns j) (completed _) w =
    let s = assign_all ns (some j) w.state in
    let t = record s { jobs_assigned = add j s.jobs_assigned } in
    (record w { state = t }, nodes_assigned (get_assigned_nodes t (some j)))
complete (assigning ns j) failed w = (w, raised activity_failed)
complete (deleting ns j) (completed _) w =
    (record w { state = assign_all ns none w.state }, returned)
complete (deleting ns j) failed w = (w, raised activity_failed)
complete (checking ns) (completed bad) w =
    (record w { state = assign_all bad (some "BAD!") w.state }, returned)
complete (checking ns) failed w = (w, returned)

release_lock :
    Option Holder → ActivityResult → ClusterManagerWorkflow → ClusterManagerWorkflow × Reply
release_lock none r w = (w, blocked)
release_lock (some h) r w = complete h r (record w { nodes_lock = none })

unfoldable pub resume : ClusterManagerWorkflow → ActivityResult → ClusterManagerWorkflow × Reply
unfolding release_lock
resume w r = release_lock w.nodes_lock r w

unfoldable pub shutdown_cluster : ClusterManagerWorkflow → ClusterManagerWorkflow × Reply
shutdown_cluster w =
    if w.state.cluster_started
    then (record w { state = record (w.state) { cluster_shutdown = true } }, returned)
    else (w, blocked)

unfoldable pub wait_until_cluster_started : ClusterManagerWorkflow → Option ClusterManagerState
wait_until_cluster_started w = if w.state.cluster_started then some w.state else none

-- `{k: None for k in node_ids}`
unfoldable pub no_assignments : List String → List (String × Option String)
no_assignments node_ids = set_all node_ids none []

-- `run` up to its loop, with the answer of the activity `start_cluster`
unfoldable pub start_cluster : ClusterManagerWorkflow → List String → ClusterManagerWorkflow
unfolding no_assignments
start_cluster w node_ids = record w {
  state = record (w.state) { nodes = no_assignments node_ids; cluster_started = true };
  starting = false;
}

-- The activity `find_bad_nodes`, over Python's `hash`.
unfoldable pub find_bad_nodes : (String → ℕ) → List String → List String
find_bad_nodes hash nodes_to_check = select (λ id. nat_beq (hash id % 5) 0) nodes_to_check

-- `self.max_history_length and history_length > self.max_history_length`
abbrev pub past_history : Option ℕ → ℕ → Bool
past_history none history_length = false
past_history (some n) history_length = not (nat_beq n 0) && ltb n history_length

unfoldable pub should_continue_as_new : ClusterManagerWorkflow → Bool → ℕ → Bool
should_continue_as_new w suggested history_length =
    suggested || past_history w.max_history_length history_length

-- Where the loop of `run` goes after its wait.
pub data Turn : Type 0 where
  again finishing continuing : Turn

unfoldable pub after_wait : ClusterManagerWorkflow → Bool → ℕ → Turn
after_wait w suggested history_length =
    if w.state.cluster_shutdown
    then finishing
    else if should_continue_as_new w suggested history_length
    then continuing
    else again

abbrev pub all_handlers_finished : ClusterManagerWorkflow → Bool
all_handlers_finished w = is_none w.nodes_lock && nat_beq (length w.waiting) 0

pub data Exit : Type 0 where
  -- the run goes on: another round, or the wait for the handlers
  running : Exit
  result : ClusterManagerResult → Exit
  continue_as_new : ClusterManagerInput → Exit

unfoldable pub exit_run : Turn → ClusterManagerInput → ClusterManagerWorkflow → Exit
exit_run again input w = running
exit_run finishing input w =
    if all_handlers_finished w
    then result (record {
      num_currently_assigned_nodes = length (get_assigned_nodes w.state none);
      num_bad_nodes = length (get_bad_nodes w.state);
    })
    else running
exit_run continuing input w =
    if all_handlers_finished w
    then continue_as_new
        (record { state = some w.state; test_continue_as_new = input.test_continue_as_new })
    else running

-- One turn of the event loop.
pub data Event : Type 0 where
  requests : Handler → Event
  enters : Event
  resumes : ActivityResult → Event
  shuts_down : Event
  -- the activity `start_cluster` gives the nodes to `run`
  starts : (node_ids : List String) → Event

-- The answer of `start_cluster` comes once, while `run` awaits it.
start_answered : Bool → List String → ClusterManagerWorkflow → ClusterManagerWorkflow × Reply
start_answered true node_ids w = (start_cluster w node_ids, returned)
start_answered false node_ids w = (w, blocked)

unfoldable pub step : ClusterManagerWorkflow → Event → ClusterManagerWorkflow × Reply
unfolding start_answered
step w (requests h) = request w h
step w enters = enter w
step w (resumes r) = resume w r
step w shuts_down = shutdown_cluster w
step w (starts node_ids) = start_answered w.starting node_ids w

unfoldable pub run_events : ClusterManagerWorkflow → List Event → ClusterManagerWorkflow
run_events w [] = w
run_events w (e ∷ es) = run_events (step w e).0 es
