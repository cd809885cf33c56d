-- ===== src/Cluster/Locked.antt =====
-- What the other handlers leave alone while one holds the lock.
use samples_python.Base.{
  Bool, true, false, Option, none, some, List, [], ◌∷◌, ◌≡◌, refl, ◌∙◌, arith, All, string_eq,
}
use samples_python.Cluster.{
  ClusterManagerWorkflow, Handler, assign_nodes_to_job, delete_job, perform_health_checks, Holder,
  Event, requests, enters, resumes, shuts_down, request, begin, enter, take_lock, shutdown_cluster,
  start_cluster, step, starts, start_answered, run_events,
}

abbrev pub is_resume : Event → Bool
is_resume (resumes r) = true
is_resume _ = false

-- The parts of the state that only the lock's holder touches.
abbrev pub SameHolder : ClusterManagerWorkflow → ClusterManagerWorkflow → Type 0
SameHolder w u = (u.nodes_lock ≡ w.nodes_lock) × (u.state.jobs_assigned ≡ w.state.jobs_assigned)

step_while_locked :
    (w : ClusterManagerWorkflow) (h : Holder) (e : Event)
    → w.nodes_lock ≡ some h
    → is_resume e ≡ false
    → SameHolder w (step w e).0
unfolding step request enter take_lock shutdown_cluster start_answered start_cluster
step_while_locked w h (requests (assign_nodes_to_job n j)) l q = ground arith
step_while_locked w h (requests (delete_job j)) l q = ground arith
step_while_locked w h (requests perform_health_checks) l q = ground arith
step_while_locked w h enters l q = ground arith
step_while_locked w h (resumes r) l q = cc
step_while_locked w h shuts_down l q = ground arith
step_while_locked w h (starts node_ids) l q = go w.starting
  where
    go : (starting : Bool) → SameHolder w (start_answered starting node_ids w).0
    go true = (refl, refl)
    go false = (refl, refl)

pub events_while_locked :
    (w : ClusterManagerWorkflow) (h : Holder) (es : List Event)
    → w.nodes_lock ≡ some h
    → All (λ e. is_resume e ≡ false) es
    → SameHolder w (run_events w es)
unfolding run_events
events_while_locked w h [] l q = (refl, refl)
events_while_locked w h (e ∷ es) l q =
    let (lock, jobs) = step_while_locked w h e l q.0 in
    let (lock', jobs') = events_while_locked (step w e).0 h es (lock ∙ l) q.1 in
    (lock' ∙ lock, jobs' ∙ jobs)

-- Once the cluster is started, only the lock's holder touches the nodes.
step_while_started :
    (w : ClusterManagerWorkflow) (e : Event)
    → w.starting ≡ false
    → is_resume e ≡ false
    → ((step w e).0.starting ≡ false) × ((step w e).0.state.nodes ≡ w.state.nodes)
unfolding step request enter take_lock begin shutdown_cluster start_answered
step_while_started w (requests (assign_nodes_to_job n j)) s q = ground arith
step_while_started w (requests (delete_job j)) s q = ground arith
step_while_started w (requests perform_health_checks) s q = ground arith
step_while_started w enters s q = go w.nodes_lock w.waiting
  where
    go :
        (l : Option Holder) (hs : List Handler)
        → ((take_lock l hs w).0.starting ≡ false)
          × ((take_lock l hs w).0.state.nodes ≡ w.state.nodes)
    go (some h) hs = (s, refl)
    go none [] = (s, refl)
    go none (assign_nodes_to_job n j ∷ hs) = ground arith
    go none (delete_job j ∷ hs) = (s, refl)
    go none (perform_health_checks ∷ hs) = (s, refl)
step_while_started w (resumes r) s q = cc
step_while_started w shuts_down s q = ground arith
step_while_started w (starts node_ids) s q = go w.starting s
  where
    go :
        (starting : Bool)
        → starting ≡ false
        → ((start_answered starting node_ids w).0.starting ≡ false)
          × ((start_answered starting node_ids w).0.state.nodes ≡ w.state.nodes)
    go true e = cc
    go false e = (s, refl)

pub events_while_started :
    (w : ClusterManagerWorkflow) (es : List Event)
    → w.starting ≡ false
    → All (λ e. is_resume e ≡ false) es
    → (run_events w es).state.nodes ≡ w.state.nodes
unfolding run_events
events_while_started w [] s q = refl
events_while_started w (e ∷ es) s q =
    let (s', nodes) = step_while_started w e s q.0 in
    events_while_started (step w e).0 es s' q.1 ∙ nodes
