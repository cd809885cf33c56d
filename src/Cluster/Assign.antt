-- ===== src/Cluster/Assign.antt =====
-- What the update that assigns nodes promises, over the await of its activity, and what a run that
-- continues another knows of the nodes.
use samples_python.Base.{
  ℕ, suc, ◌-◌, ◌≤◌, String, false, Option, none, some, List, [], ◌∷◌, ◌≡◌, refl, ◌∙◌, ap, inl, inr,
  arith, take, length, length-take, All, holds, contains, string_eq, get, set_all, keys_where,
  get-set_all, set_all-Unique, contains-keys_where, Unique, Bool-cases, if◌then◌else◌, ◌==◌, ℤ,
}
use samples_python.Cluster.{
  ClusterManagerState, ClusterManagerWorkflow, Handler, assign_nodes_to_job, assigning,
  nodes_assigned, scheduled, completed, Event, enters, is_job, get_unassigned_nodes,
  get_assigned_nodes, begin, enter, take_lock, complete, release_lock, resume, start_cluster, step,
  run_events, no_assignments, assign_all, ClusterManagerInput, continuing, continue_as_new,
  exit_run, init,
}
use samples_python.Cluster.Invariant.{IsValid, KnownJobs, run_events-IsValid, step-IsValid}
use samples_python.Cluster.Locked.{is_resume, events_while_locked}

-- Nobody has a job that was never assigned.
fresh_unheld :
    (s : ClusterManagerState) (n j : String)
    → KnownJobs s
    → contains j s.jobs_assigned ≡ false
    → (j == "BAD!") ≡ false
    → holds (is_job j) (get n s.nodes) ≡ false
fresh_unheld s n j known fresh good = go (get n s.nodes) refl
  where
    go : (o : Option (Option String)) → get n s.nodes ≡ o → holds (is_job j) o ≡ false
    go none e = refl
    go (some none) e = refl
    go (some (some v)) e = elim (Bool-cases (v == j)) [
      | inl same ↦ ground (arith, known n v e, string_eq.same_iff v j)
      | inr other ↦ other
    ]

contains_after_assign :
    (s : ClusterManagerState) (ns : List String) (n j : String)
    → Unique s.nodes
    → KnownJobs s
    → contains j s.jobs_assigned ≡ false
    → (j == "BAD!") ≡ false
    → contains n (keys_where (is_job j) (set_all ns (some j) s.nodes)) ≡ contains n ns
contains_after_assign s ns n j unique known fresh good =
    contains-keys_where (is_job j) n _ (set_all-Unique ns (some j) s.nodes unique)
    ∙ ground (
      arith,
      get-set_all ns n (some j) s.nodes,
      fresh_unheld s n j known fresh good,
      string_eq.same_iff j j,
    )

resume-nodes_assigned :
    (w : ClusterManagerWorkflow) (ns ignored : List String) (j : String)
    → IsValid w
    → w.nodes_lock ≡ some (assigning ns j)
    → contains j w.state.jobs_assigned ≡ false
    → (j == "") ≡ false
    → (j == "BAD!") ≡ false
    → (got : List String) × ((resume w (completed ignored)).1 ≡ nodes_assigned got)
      × ((n : String) → contains n got ≡ contains n ns)
unfolding resume release_lock complete assign_all get_assigned_nodes
resume-nodes_assigned w ns ignored j v l fresh named good = (
  keys_where (is_job j) (set_all ns (some j) w.state.nodes),
  rw (l, release_lock) (rw named refl),
  λ n. contains_after_assign w.state ns n j v.unique v.known fresh good,
)

module _ (w : ClusterManagerWorkflow) (n : ℕ) (j : String) (hs : List Handler) where
  -- The handler's turn at the lock, with enough free nodes for it.
  pub record CanAssign : Type 0 where
    pub free : w.nodes_lock ≡ none
    pub first : w.waiting ≡ assign_nodes_to_job (ℤ.pos n) j ∷ hs
    pub fresh : contains j w.state.jobs_assigned ≡ false
    pub enough : n ≤ length (get_unassigned_nodes w.state)
    pub named : (j == "") ≡ false
    pub not_bad : (j == "BAD!") ≡ false

  enter-scheduled :
      CanAssign
      → ((enter w).0.nodes_lock ≡ some (assigning (take n (get_unassigned_nodes w.state)) j))
        × ((enter w).0.state ≡ w.state)
        × ((enter w).1 ≡ scheduled)
  unfolding enter take_lock begin
  enter-scheduled c = ground (arith, c.first, c.free, c.fresh, c.enough)

  -- The update `assign_nodes_to_job` is atomic: a job that is new, has a name other than the empty
  -- text and the bad mark, and asks for no more nodes than are free when the update gets the lock,
  -- is given that many nodes, the first free ones, and the update returns those, whatever other
  -- handlers, health checks and shutdowns the event loop serves while the activity runs, and were it
  -- the start of the cluster in a run that continues another.
  pub assign_nodes_to_job_atomic :
      (es : List Event) (ignored : List String)
      → IsValid w
      → CanAssign
      → All (λ e. is_resume e ≡ false) es
      → let taken = take n (get_unassigned_nodes w.state) in
        let u = run_events (enter w).0 es in
        (length taken ≡ n)
        × ((got : List String) × ((resume u (completed ignored)).1 ≡ nodes_assigned got)
            × ((k : String) → contains k got ≡ contains k taken))
  unfolding step enter
  assign_nodes_to_job_atomic es ignored v c q =
      let taken = take n (get_unassigned_nodes w.state) in
      let (lock, state, _) = enter-scheduled c in
      let (lock', jobs) = events_while_locked (enter w).0 (assigning taken j) es lock q in
      (
        omega (arith, length-take n (get_unassigned_nodes w.state), c.enough),
        resume-nodes_assigned (run_events (enter w).0 es) taken ignored j
            (run_events-IsValid (enter w).0 es (step-IsValid w enters v)) (lock' ∙ lock)
            (ap (contains j) (jobs ∙ ap (λ (t : ClusterManagerState). t.jobs_assigned) state)
              ∙ c.fresh)
            c.named c.not_bad,
      )

-- A negative request passes the guard: -(k + 1) nodes are all the free ones but the last k + 1.
pub enter-negative :
    (w : ClusterManagerWorkflow) (k : ℕ) (j : String) (hs : List Handler)
    → w.nodes_lock ≡ none
    → w.waiting ≡ assign_nodes_to_job (ℤ.negsuc k) j ∷ hs
    → contains j w.state.jobs_assigned ≡ false
    → let free = get_unassigned_nodes w.state in
      ((enter w).1 ≡ scheduled)
      × ((enter w).0.nodes_lock ≡ some (assigning (take (length free - suc k) free) j))
unfolding enter take_lock begin
enter-negative w k j hs l q fresh = ground arith

-- When the workflow continues as new, the run that follows starts the cluster again: every node
-- that `start_cluster` lists is then free, whatever job had it, and no other node is known, though
-- `jobs_assigned` still holds the jobs of the run before.
pub continue_as_new-start_cluster :
    (w : ClusterManagerWorkflow) (input next : ClusterManagerInput) (node_ids : List String)
    → exit_run continuing input w ≡ continue_as_new next
    → let u = start_cluster (init next) node_ids in
      ((n : String) → get n u.state.nodes ≡ (if contains n node_ids then some none else none))
      × (u.state.jobs_assigned ≡ w.state.jobs_assigned)
unfolding exit_run start_cluster no_assignments init get
continue_as_new-start_cluster w input next node_ids h =
    (λ n. get-set_all node_ids n none [], ground arith)
