-- ===== src/Cluster/Delete.antt =====
-- What the update that deletes a job does, over the await of its activity.
use samples_python.Base.{
  String, true, false, Option, none, some, List, ◌∷◌, ◌≡◌, refl, ◌∙◌, ap, sym, subst, arith, All,
  holds, contains, string_eq, get, set_all, keys_where, get-set_all, set_all-Unique,
  contains-keys_where, Unique, if◌then◌else◌, ◌==◌, ℤ,
}
use samples_python.Cluster.{
  ClusterManagerState, ClusterManagerWorkflow, Handler, assign_nodes_to_job, delete_job, deleting,
  nodes_assigned, completed, Event, enters, is_job, get_assigned_nodes, begin, enter, take_lock,
  complete, release_lock, resume, step, run_events, assign_all,
}
use samples_python.Cluster.Invariant.{IsValid, run_events-IsValid, step-IsValid}
use samples_python.Cluster.Locked.{is_resume, events_while_locked, events_while_started}

unheld_after_delete :
    (s : ClusterManagerState) (n j : String)
    → Unique s.nodes
    → holds (is_job j) (get n (set_all (keys_where (is_job j) s.nodes) none s.nodes)) ≡ false
unheld_after_delete s n j unique = ground (
  arith,
  get-set_all (keys_where (is_job j) s.nodes) n none s.nodes,
  contains-keys_where (is_job j) n s.nodes unique,
)

enter-deleting :
    (w : ClusterManagerWorkflow) (hs : List Handler) (j : String)
    → w.nodes_lock ≡ none
    → w.waiting ≡ delete_job j ∷ hs
    → ((enter w).0.nodes_lock ≡ some (deleting (keys_where (is_job j) w.state.nodes) j))
      × ((enter w).0.state ≡ w.state)
      × ((enter w).0.starting ≡ w.starting)
unfolding enter take_lock begin
enter-deleting w hs j free first = ground (arith, first, free)

-- The nodes of `d` once those of the job are freed, and an assignment of the job to no node.
abbrev IsDeleted :
    (j : String) (n : ℤ) (d : List (String × Option String)) → ClusterManagerWorkflow → Type 0
IsDeleted j n d u =
    ((k : String)
      → get k u.state.nodes ≡ (if holds (is_job j) (get k d) then some none else get k d))
    × ((got : List String) × ((begin u (assign_nodes_to_job n j)).1 ≡ nodes_assigned got)
        × ((k : String) → contains k got ≡ false))

resume-IsDeleted :
    (w : ClusterManagerWorkflow) (j : String) (n : ℤ) (ignored : List String)
    → Unique w.state.nodes
    → w.nodes_lock ≡ some (deleting (keys_where (is_job j) w.state.nodes) j)
    → (j == "") ≡ false
    → contains j w.state.jobs_assigned ≡ true
    → IsDeleted j n w.state.nodes (resume w (completed ignored)).0
unfolding resume release_lock complete begin assign_all get_assigned_nodes
resume-IsDeleted w j n ignored unique l named old =
    let ns = keys_where (is_job j) w.state.nodes in
    rw (l, release_lock)
      (
        λ k.
            get-set_all ns k none w.state.nodes
            ∙ rw (contains-keys_where (is_job j) k w.state.nodes unique),
        (
          keys_where (is_job j) (set_all ns none w.state.nodes),
          rw (old, named) refl,
          λ k.
              contains-keys_where (is_job j) k _ (set_all-Unique ns none w.state.nodes unique)
              ∙ unheld_after_delete w.state k j unique,
        ),
      )

-- Once the cluster is started, the update `delete_job`, from its turn at the lock to the result of
-- its activity and whatever else but that result comes between, frees every node that the job has at
-- its turn and no other node; but the job stays in `jobs_assigned`, so a later assignment of the
-- same job, which was assigned before and is not the empty text, returns at once with no node,
-- however many nodes it asks for.
pub delete-then-assign_nodes_to_job :
    (w : ClusterManagerWorkflow) (hs : List Handler) (es : List Event)
    → (j : String) (n : ℤ) (ignored : List String) → IsValid w
    → w.nodes_lock ≡ none
    → w.waiting ≡ delete_job j ∷ hs
    → w.starting ≡ false
    → (j == "") ≡ false
    → contains j w.state.jobs_assigned ≡ true
    → All (λ e. is_resume e ≡ false) es
    → let u = (resume (run_events (enter w).0 es) (completed ignored)).0 in
      ((k : String)
        → get k u.state.nodes
          ≡ (if holds (is_job j) (get k w.state.nodes) then some none else get k w.state.nodes))
      × ((got : List String) × ((begin u (assign_nodes_to_job n j)).1 ≡ nodes_assigned got)
          × ((k : String) → contains k got ≡ false))
unfolding step
delete-then-assign_nodes_to_job w hs es j n ignored v free first started named old q =
    let (lock, state, starting) = enter-deleting w hs j free first in
    let later = run_events (enter w).0 es in
    let (lock', jobs) = events_while_locked (enter w).0 _ es lock q in
    let valid = run_events-IsValid (enter w).0 es (step-IsValid w enters v) in
    let nodes : later.state.nodes ≡ w.state.nodes =
      events_while_started (enter w).0 es (starting ∙ started) q
      ∙ ap (λ (t : ClusterManagerState). t.nodes) state in
    subst (λ d. IsDeleted j n d (resume later (completed ignored)).0) nodes
      (resume-IsDeleted later j n ignored valid.unique
        (lock' ∙ lock ∙ ap (λ d. some (deleting (keys_where (is_job j) d) j)) (sym nodes)) named
        (ap (contains j) (jobs ∙ ap (λ (t : ClusterManagerState). t.jobs_assigned) state) ∙ old))
