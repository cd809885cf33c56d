-- ===== src/Cluster/Invariant.antt =====
-- What holds of the cluster manager between any two turns of its event loop.
use samples_python.Base.{
  ℕ, zero, suc, String, Bool, true, false, ◌||◌, Option, none, some, List, [], ◌∷◌, ◌≡◌, ◌⊎◌, inl,
  inr, refl, sym, ap, ◌∙◌, arith, Bool-cases, is_none, take, ◌==◌, contains, string_eq, get,
  set_all, keys_where, Unique, holds, ℤ, slice_to, get-set_all, set_all-Unique, contains-keys_where,
  contains-add, add,
}
use samples_python.Cluster.{
  ClusterManagerState, ClusterManagerWorkflow, Handler, assign_nodes_to_job, delete_job,
  perform_health_checks, Holder, assigning, deleting, checking, ActivityResult, completed, failed,
  Event, requests, enters, resumes, shuts_down, starts, is_job, in_use, get_assigned_nodes,
  get_unassigned_nodes, request, begin, enter, complete, resume, shutdown_cluster, start_cluster,
  take_lock, release_lock, start_answered, no_assignments, step, run_events,
}

-- The value under every listed node passes the test.
abbrev pub Held : (Option String → Bool) → List String → List (String × Option String) → Type 0
Held test ns d = (n : String) → contains n ns ≡ true → holds test (get n d) ≡ true

-- No node has a job or a mark.
abbrev pub AllFree : List (String × Option String) → Type 0
AllFree d = (n : String) → (get n d ≡ none) ⊎ (get n d ≡ some none)

-- While a handler awaits its activity, the nodes that it chose are as it found them, unless the
-- cluster was started meanwhile, and then every node is free.
abbrev pub HolderIsValid : Option Holder → ClusterManagerState → Type 0
HolderIsValid none s = Unit
HolderIsValid (some (assigning ns j)) s =
    (Held is_none ns s.nodes ⊎ AllFree s.nodes) × (contains j s.jobs_assigned ≡ false)
HolderIsValid (some (deleting ns j)) s = Held (is_job j) ns s.nodes ⊎ AllFree s.nodes
HolderIsValid (some (checking ns)) s = Held in_use ns s.nodes ⊎ AllFree s.nodes

abbrev pub KnownJobs : ClusterManagerState → Type 0
KnownJobs s =
    (n j : String)
    → get n s.nodes ≡ some (some j)
    → ((j == "BAD!") || contains j s.jobs_assigned) ≡ true

pub record IsValid (w : ClusterManagerWorkflow) : Type 0 where
  pub unique : Unique w.state.nodes
  pub holder : HolderIsValid w.nodes_lock w.state
  -- only a job that was assigned, or the mark of a bad node, stands at a node
  pub known : KnownJobs w.state

contains-take :
    (n : String) (k : ℕ) (xs : List String) → contains n (take k xs) ≡ true → contains n xs ≡ true
unfolding contains
contains-take n zero xs h = cc
contains-take n (suc k) [] h = cc
contains-take n (suc k) (x ∷ xs) h = ground (arith, contains-take n k xs)

contains-slice_to :
    (n : String) (z : ℤ) (xs : List String)
    → contains n (slice_to z xs) ≡ true
    → contains n xs ≡ true
contains-slice_to n (ℤ.pos k) xs h = contains-take n k xs h
contains-slice_to n (ℤ.negsuc k) xs h = contains-take n _ xs h

keys_where-Held :
    (test : Option String → Bool) (d : List (String × Option String))
    → Unique d
    → Held test (keys_where test d) d
keys_where-Held test d u n h = sym (contains-keys_where test n d u) ∙ h

slice-Held :
    (test : Option String → Bool) (z : ℤ) (d : List (String × Option String))
    → Unique d
    → Held test (slice_to z (keys_where test d)) d
slice-Held test z d u n h = keys_where-Held test d u n (contains-slice_to n z _ h)

request-IsValid : (w : ClusterManagerWorkflow) (h : Handler) → IsValid w → IsValid (request w h).0
unfolding request
request-IsValid w (assign_nodes_to_job n j) v = ground arith
request-IsValid w (delete_job j) v = ground arith
request-IsValid w perform_health_checks v = ground arith

begin-IsValid : (w : ClusterManagerWorkflow) (h : Handler) → IsValid w → IsValid (begin w h).0
unfolding begin get_unassigned_nodes get_assigned_nodes
begin-IsValid w (assign_nodes_to_job n j) v =
    ground (arith, slice-Held is_none n w.state.nodes v.unique)
begin-IsValid w (delete_job j) v = record {
  unique = v.unique;
  holder = inl (keys_where-Held (is_job j) w.state.nodes v.unique);
  known = v.known;
}
begin-IsValid w perform_health_checks v = record {
  unique = v.unique;
  holder = inl (keys_where-Held in_use w.state.nodes v.unique);
  known = v.known;
}

take_lock-IsValid :
    (l : Option Holder) (hs : List Handler) (w : ClusterManagerWorkflow)
    → w.nodes_lock ≡ l
    → IsValid w
    → IsValid (take_lock l hs w).0
unfolding take_lock
take_lock-IsValid (some h) hs w e v = v
take_lock-IsValid none [] w e v = v
take_lock-IsValid none (h ∷ hs) w e v =
    begin-IsValid (record w { waiting = hs }) h
      (record { unique = v.unique; holder = v.holder; known = v.known })

enter-IsValid : (w : ClusterManagerWorkflow) → IsValid w → IsValid (enter w).0
unfolding enter
enter-IsValid w v = take_lock-IsValid w.nodes_lock w.waiting w refl v

module _ (s : ClusterManagerState) (ns : List String) (known : KnownJobs s) where
  assign-KnownJobs :
      (job : String)
      → KnownJobs (record s {
        nodes = set_all ns (some job) s.nodes;
        jobs_assigned = add job s.jobs_assigned;
      })
  assign-KnownJobs job n j = ground (
    arith,
    get-set_all ns n (some job) s.nodes,
    contains-add job j s.jobs_assigned,
    string_eq.same_iff j job,
    known n j,
  )

  delete-KnownJobs : KnownJobs (record s { nodes = set_all ns none s.nodes })
  delete-KnownJobs n j = ground (arith, get-set_all ns n none s.nodes, known n j)

  bad-KnownJobs : KnownJobs (record s { nodes = set_all ns (some "BAD!") s.nodes })
  bad-KnownJobs n j =
      ground (arith, get-set_all ns n (some "BAD!") s.nodes, string_eq.same_iff j "BAD!", known n j)

complete-IsValid :
    (h : Holder) (r : ActivityResult) (w : ClusterManagerWorkflow)
    → w.nodes_lock ≡ none
    → IsValid w
    → IsValid (complete h r w).0
unfolding complete
complete-IsValid (assigning ns j) (completed _) w e v = record {
  unique = set_all-Unique ns (some j) w.state.nodes v.unique;
  holder = rw e tt;
  known = assign-KnownJobs w.state ns v.known j;
}
complete-IsValid (assigning ns j) failed w e v = v
complete-IsValid (deleting ns j) (completed _) w e v = record {
  unique = set_all-Unique ns none w.state.nodes v.unique;
  holder = rw e tt;
  known = delete-KnownJobs w.state ns v.known;
}
complete-IsValid (deleting ns j) failed w e v = v
complete-IsValid (checking ns) (completed bad) w e v = record {
  unique = set_all-Unique bad (some "BAD!") w.state.nodes v.unique;
  holder = rw e tt;
  known = bad-KnownJobs w.state bad v.known;
}
complete-IsValid (checking ns) failed w e v = v

release_lock-IsValid :
    (l : Option Holder) (r : ActivityResult) (w : ClusterManagerWorkflow)
    → IsValid w
    → IsValid (release_lock l r w).0
unfolding release_lock
release_lock-IsValid none r w v = v
release_lock-IsValid (some h) r w v =
    complete-IsValid h r (record w { nodes_lock = none }) refl
      (record { unique = v.unique; holder = tt; known = v.known })

no_assignments-KnownJobs :
    (s : ClusterManagerState) (node_ids : List String)
    → KnownJobs (record s { nodes = no_assignments node_ids })
unfolding no_assignments get
no_assignments-KnownJobs s node_ids n j =
    ground (arith, get-set_all {V = Option String} node_ids n none [])

no_assignments-AllFree : (node_ids : List String) → AllFree (no_assignments node_ids)
unfolding no_assignments get
no_assignments-AllFree node_ids n =
    let now = get-set_all {V = Option String} node_ids n none [] in
    elim (Bool-cases (contains n node_ids)) [
      | inl hit ↦ inr (rw (now, hit) refl)
      | inr miss ↦ inl (rw (now, miss) refl)
    ]

HolderIsValid-free :
    (l : Option Holder) (s t : ClusterManagerState)
    → t.jobs_assigned ≡ s.jobs_assigned
    → AllFree t.nodes
    → HolderIsValid l s
    → HolderIsValid l t
HolderIsValid-free none s t same free v = tt
HolderIsValid-free (some (assigning ns j)) s t same free v = (inr free, ap (contains j) same ∙ v.1)
HolderIsValid-free (some (deleting ns j)) s t same free v = inr free
HolderIsValid-free (some (checking ns)) s t same free v = inr free

-- The start of the cluster keeps the invariant, in a first run and in a run that continues another.
pub start_cluster-IsValid :
    (w : ClusterManagerWorkflow) (node_ids : List String)
    → HolderIsValid w.nodes_lock w.state
    → IsValid (start_cluster w node_ids)
unfolding start_cluster
start_cluster-IsValid w node_ids held = record {
  unique = set_all-Unique node_ids none [] tt;
  holder = HolderIsValid-free w.nodes_lock w.state _ refl (no_assignments-AllFree node_ids) held;
  known = no_assignments-KnownJobs w.state node_ids;
}

start_answered-IsValid :
    (starting : Bool) (node_ids : List String) (w : ClusterManagerWorkflow)
    → IsValid w
    → IsValid (start_answered starting node_ids w).0
unfolding start_answered
start_answered-IsValid true node_ids w v = start_cluster-IsValid w node_ids v.holder
start_answered-IsValid false node_ids w v = v

-- Every turn of the event loop, whichever handler or activity it serves, keeps the invariant: the
-- nodes are distinct, every job that stands at a node was assigned, and the nodes that the lock's
-- holder chose before its await are still as it found them, unless `run` started the cluster
-- meanwhile, as it may in a run that continues another, and then every node is free.
pub step-IsValid : (w : ClusterManagerWorkflow) (e : Event) → IsValid w → IsValid (step w e).0
unfolding step resume shutdown_cluster
step-IsValid w (requests h) v = request-IsValid w h v
step-IsValid w enters v = enter-IsValid w v
step-IsValid w (resumes r) v = release_lock-IsValid w.nodes_lock r w v
step-IsValid w shuts_down v = ground arith
step-IsValid w (starts node_ids) v = start_answered-IsValid w.starting node_ids w v

pub run_events-IsValid :
    (w : ClusterManagerWorkflow) (es : List Event) → IsValid w → IsValid (run_events w es)
unfolding run_events
run_events-IsValid w [] v = v
run_events-IsValid w (e ∷ es) v = run_events-IsValid (step w e).0 es (step-IsValid w e v)
