-- ===== src/Cluster/Tests.antt =====
-- Runs of the cluster manager at concrete inputs.
use samples_python.Base.{
  String, string_eq, false, none, some, List, [], ◌∷◌, ◌≡◌, refl, arith, length, take, contains,
  add, get, set_all, keys_where, ℤ, if◌then◌else◌,
}
use samples_python.Cluster.{
  ClusterManagerInput, ClusterManagerWorkflow, init, start_cluster, assign_nodes_to_job, delete_job,
  nodes_assigned, completed, requests, enters, resumes, shuts_down, starts, step, run_events,
  get_unassigned_nodes, resume, enter, begin, complete, keys_where, request, shutdown_cluster,
  get_assigned_nodes, exit_run, assigning,
}
use samples_python.Cluster.Invariant.{
  IsValid, step-IsValid, run_events-IsValid, start_cluster-IsValid,
}
use samples_python.Cluster.Moves.{NodeMove, step-NodeMove}
use samples_python.Cluster.Delete.{delete-then-assign_nodes_to_job}
use samples_python.Cluster.Assign.{
  assign_nodes_to_job_atomic, enter-negative, continue_as_new-start_cluster,
}

abbrev first_input : ClusterManagerInput
first_input = record { state = none; test_continue_as_new = false }

abbrev three_nodes : List String
three_nodes = "node-0" ∷ "node-1" ∷ "node-2" ∷ []

abbrev started : ClusterManagerWorkflow
started = start_cluster (init first_input) three_nodes

started-IsValid : IsValid started
unfolding init
started-IsValid = start_cluster-IsValid (init first_input) three_nodes tt

-- An assignment at the lock, while a deletion and a shutdown arrive.
abbrev asked : ClusterManagerWorkflow
asked = (step started (requests (assign_nodes_to_job (ℤ.pos 2) "job-a"))).0

asked-IsValid : IsValid asked
asked-IsValid = step-IsValid started _ started-IsValid

run_two :
    (resume
      (run_events (enter asked).0 (requests (delete_job "job-b") ∷ shuts_down ∷ []))
      (completed [])).1
    ≡ nodes_assigned ("node-0" ∷ "node-1" ∷ [])
unfolding step resume run_events enter start_cluster init request begin complete exit_run
    shutdown_cluster get_unassigned_nodes get_assigned_nodes get contains add keys_where set_all
run_two = refl

assign_nodes_to_job_atomic_example :
    let u = run_events (enter asked).0 (requests (delete_job "job-b") ∷ shuts_down ∷ []) in
    (length (take 2 (get_unassigned_nodes asked.state)) ≡ 2)
    × ((got : List String) × ((resume u (completed [])).1 ≡ nodes_assigned got)
        × ((k : String) → contains k got ≡ contains k (take 2 (get_unassigned_nodes asked.state))))
unfolding step resume run_events enter start_cluster init request begin complete exit_run
    shutdown_cluster get_unassigned_nodes get_assigned_nodes get contains add keys_where set_all
assign_nodes_to_job_atomic_example =
    assign_nodes_to_job_atomic asked 2 "job-a" [] (requests (delete_job "job-b") ∷ shuts_down ∷ [])
      [] asked-IsValid
      (record {
        free = refl;
        first = refl;
        fresh = refl;
        enough = omega arith;
        named = refl;
        not_bad = refl;
      })
      (refl, (refl, tt))

step-IsValid_example : IsValid (step asked enters).0
step-IsValid_example = step-IsValid asked enters asked-IsValid

step-NodeMove_example :
    NodeMove
      (step asked enters).0
      (resumes (completed []))
      "node-0"
      (get "node-0" (step asked enters).0.state.nodes)
      (get "node-0" (step (step asked enters).0 (resumes (completed []))).0.state.nodes)
step-NodeMove_example =
    step-NodeMove (step asked enters).0 (resumes (completed [])) "node-0"
      (step-IsValid asked enters asked-IsValid)

abbrev asked_negative : ClusterManagerWorkflow
asked_negative = (step started (requests (assign_nodes_to_job (ℤ.negsuc 0) "job-a"))).0

negative_test :
    (enter asked_negative).0.nodes_lock ≡ some (assigning ("node-0" ∷ "node-1" ∷ []) "job-a")
unfolding step resume run_events enter start_cluster init request begin complete exit_run
    shutdown_cluster get_unassigned_nodes get_assigned_nodes get contains add keys_where set_all
negative_test = (enter-negative asked_negative 0 "job-a" [] refl refl refl).1

abbrev with_job : ClusterManagerWorkflow
with_job = (step (step asked enters).0 (resumes (completed []))).0

with_job-IsValid : IsValid with_job
unfolding step resume run_events enter start_cluster init request begin complete exit_run
    shutdown_cluster get_unassigned_nodes get_assigned_nodes get contains add keys_where set_all
with_job-IsValid = run_events-IsValid asked (enters ∷ resumes (completed []) ∷ []) asked-IsValid

-- The deletion of the job is first at the lock.
abbrev deleting_job : ClusterManagerWorkflow
deleting_job = (step with_job (requests (delete_job "job-a"))).0

deleting_job-IsValid : IsValid deleting_job
unfolding step resume run_events enter start_cluster init request begin complete exit_run
    shutdown_cluster get_unassigned_nodes get_assigned_nodes get contains add keys_where set_all
deleting_job-IsValid = step-IsValid with_job (requests (delete_job "job-a")) with_job-IsValid

delete-then-assign_nodes_to_job_example :
    let u = (resume (run_events (enter deleting_job).0 (enters ∷ [])) (completed [])).0 in
    (got : List String) × ((begin u (assign_nodes_to_job (ℤ.pos 1) "job-a")).1 ≡ nodes_assigned got)
    × ((k : String) → contains k got ≡ false)
unfolding step resume run_events enter start_cluster init request begin complete exit_run
    shutdown_cluster get_unassigned_nodes get_assigned_nodes get contains add keys_where set_all
delete-then-assign_nodes_to_job_example =
    (delete-then-assign_nodes_to_job deleting_job [] (enters ∷ []) "job-a" (ℤ.pos 1) []
      deleting_job-IsValid refl refl refl refl refl (refl, tt)).1

abbrev next_input : ClusterManagerInput
next_input = record { state = some with_job.state; test_continue_as_new = false }

continue_as_new-start_cluster_example :
    ((n : String)
      → get n (start_cluster (init next_input) three_nodes).state.nodes
        ≡ (if contains n three_nodes then some none else none))
    × ((start_cluster (init next_input) three_nodes).state.jobs_assigned
        ≡ with_job.state.jobs_assigned)
unfolding step resume run_events enter start_cluster init request begin complete exit_run
    shutdown_cluster get_unassigned_nodes get_assigned_nodes get contains add keys_where set_all
continue_as_new-start_cluster_example =
    continue_as_new-start_cluster with_job first_input next_input three_nodes refl

-- A deletion takes the lock before `run` has started the cluster of the run that continues another.
abbrev early_deletion : ClusterManagerWorkflow
early_deletion = run_events (init next_input) (requests (delete_job "job-a") ∷ enters ∷ [])

abbrev restarted_late : ClusterManagerWorkflow
restarted_late = run_events early_deletion (starts ("node-7" ∷ []) ∷ resumes (completed []) ∷ [])

-- The nodes that the deletion had chosen come back, though the cluster no longer lists them.
restarted_test : get_unassigned_nodes restarted_late.state ≡ "node-7" ∷ "node-0" ∷ "node-1" ∷ []
unfolding step resume run_events enter start_cluster init request begin complete exit_run
    shutdown_cluster get_unassigned_nodes get_assigned_nodes get contains add keys_where set_all
restarted_test = refl
