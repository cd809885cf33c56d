-- ===== src/Cluster/Moves.antt =====
-- How the entry of one node changes in one turn of the event loop.
use samples_python.Base.{
  String, Bool, true, false, Option, none, some, List, [], ◌∷◌, ◌≡◌, ◌⊎◌, refl, sym, ap, ◌∙◌, subst,
  inl, inr, arith, is_none, holds, contains, string_eq, get, set_all, get-set_all, Bool-cases,
  if◌then◌else◌,
}
use samples_python.Cluster.{
  ClusterManagerWorkflow, Handler, assign_nodes_to_job, delete_job, perform_health_checks, Holder,
  assigning, deleting, checking, ActivityResult, completed, failed, Event, requests, enters,
  resumes, shuts_down, is_job, request, begin, enter, take_lock, complete, release_lock, resume,
  shutdown_cluster, step, starts, start_answered, start_cluster, no_assignments, assign_all,
}
use samples_python.Cluster.Invariant.{IsValid, HolderIsValid, Held, AllFree}

-- The holder of the lock is to write `v` at the nodes `ns`: its job, or that they are free.
pub data HolderChanges (ns : List String) : Option String → Option Holder → Type 0 where
  assigns : (j : String) → HolderChanges ns (some j) (some (assigning ns j))
  deletes : (j : String) → HolderChanges ns none (some (deleting ns j))

-- From the entry `before` to the entry `after` of a node, in the turn `e` of the event loop, under
-- the handler that holds the lock.
pub data NodeMove (w : ClusterManagerWorkflow) (e : Event) (n : String)
    (before after : Option (Option String)) : Type 0 where
  unchanged : after ≡ before → NodeMove w e n before after
  assigned :
      (ns : List String) (j : String)
      → w.nodes_lock ≡ some (assigning ns j)
      → before ≡ some none
      → after ≡ some (some j)
      → NodeMove w e n before after
  unassigned :
      (ns : List String) (j : String)
      → w.nodes_lock ≡ some (deleting ns j)
      → before ≡ some (some j)
      → after ≡ some none
      → NodeMove w e n before after
  marked :
      (ns : List String)
      → w.nodes_lock ≡ some (checking ns)
      → after ≡ some (some "BAD!")
      → NodeMove w e n before after
  -- `run` starts the cluster, whoever holds the lock.
  restarted :
      (node_ids : List String)
      → e ≡ starts node_ids
      → w.starting ≡ true
      → after ≡ (if contains n node_ids then some none else none)
      → NodeMove w e n before after
  -- The holder chose the node before that start, which did not list it; every node was free since.
  added :
      (ns : List String) (v : Option String)
      → HolderChanges ns v w.nodes_lock
      → contains n ns ≡ true
      → AllFree w.state.nodes
      → before ≡ none
      → after ≡ some v
      → NodeMove w e n before after

request_nodes :
    (w : ClusterManagerWorkflow) (h : Handler) → (request w h).0.state.nodes ≡ w.state.nodes
unfolding request
request_nodes w (assign_nodes_to_job n j) = ground arith
request_nodes w (delete_job j) = ground arith
request_nodes w perform_health_checks = ground arith

begin_nodes : (w : ClusterManagerWorkflow) (h : Handler) → (begin w h).0.state.nodes ≡ w.state.nodes
unfolding begin
begin_nodes w (assign_nodes_to_job n j) = ground arith
begin_nodes w (delete_job j) = refl
begin_nodes w perform_health_checks = refl

enter_nodes : (w : ClusterManagerWorkflow) → (enter w).0.state.nodes ≡ w.state.nodes
unfolding enter
enter_nodes w = go w.nodes_lock w.waiting
  where
    go : (l : Option Holder) (hs : List Handler) → (take_lock l hs w).0.state.nodes ≡ w.state.nodes
    go (some h) hs = refl
    go none [] = refl
    go none (h ∷ hs) = begin_nodes (record w { waiting = hs }) h

none_held : (o : Option (Option String)) → holds is_none o ≡ true → o ≡ some none
none_held o h = ground arith

job_held : (j : String) (o : Option (Option String)) → holds (is_job j) o ≡ true → o ≡ some (some j)
job_held j none h = cc
job_held j (some none) h = cc
job_held j (some (some v)) h = ground (arith, string_eq.same_iff v j)

-- What the completion of an activity does, with the handler that holds the lock named apart.
module _ (w : ClusterManagerWorkflow) (e : Event) (n : String) where
  set_all-NodeMove :
      (ns : List String) (v : Option String)
      → (contains n ns ≡ true → NodeMove w e n (get n w.state.nodes) (some v))
      → NodeMove w e n (get n w.state.nodes) (get n (set_all ns v w.state.nodes))
  set_all-NodeMove ns v changes =
      let now = get-set_all ns n v w.state.nodes in
      elim (Bool-cases (contains n ns)) [
        | inl hit ↦
            subst (NodeMove w e n (get n w.state.nodes))
              (sym (now ∙ ap (λ b. if b then some v else get n w.state.nodes) hit)) (changes hit)
        | inr miss ↦ unchanged (now ∙ ap (λ b. if b then some v else get n w.state.nodes) miss)
      ]

  assigning-NodeMove :
      (ns : List String) (j : String)
      → w.nodes_lock ≡ some (assigning ns j)
      → contains n ns ≡ true
      → Held is_none ns w.state.nodes ⊎ AllFree w.state.nodes
      → (o : Option (Option String)) → get n w.state.nodes ≡ o
      → NodeMove w e n o (some (some j))
  assigning-NodeMove ns j l hit (inl held) o at =
      assigned ns j l (none_held o (ap (holds is_none) (sym at) ∙ held n hit)) refl
  assigning-NodeMove ns j l hit (inr free) o at = elim (free n) [
    | inl gone ↦
        added ns (some j) (subst (HolderChanges ns (some j)) (sym l) (assigns j)) hit free
          (sym at ∙ gone) refl
    | inr here ↦ assigned ns j l (sym at ∙ here) refl
  ]

  deleting-NodeMove :
      (ns : List String) (j : String)
      → w.nodes_lock ≡ some (deleting ns j)
      → contains n ns ≡ true
      → Held (is_job j) ns w.state.nodes ⊎ AllFree w.state.nodes
      → (o : Option (Option String)) → get n w.state.nodes ≡ o
      → NodeMove w e n o (some none)
  deleting-NodeMove ns j l hit (inl held) o at =
      unassigned ns j l (job_held j o (ap (holds (is_job j)) (sym at) ∙ held n hit)) refl
  deleting-NodeMove ns j l hit (inr free) o at = elim (free n) [
    | inl gone ↦
        added ns none (subst (HolderChanges ns none) (sym l) (deletes j)) hit free (sym at ∙ gone)
          refl
    | inr here ↦ unchanged (sym here ∙ at)
  ]

  completed-NodeMove :
      (l : Option Holder) (r : ActivityResult)
      → w.nodes_lock ≡ l
      → HolderIsValid l w.state
      → NodeMove w e n (get n w.state.nodes) (get n (release_lock l r w).0.state.nodes)
  unfolding release_lock complete assign_all
  completed-NodeMove none r l v = unchanged refl
  completed-NodeMove (some (assigning ns j)) failed l v = unchanged refl
  completed-NodeMove (some (deleting ns j)) failed l v = unchanged refl
  completed-NodeMove (some (checking ns)) failed l v = unchanged refl
  completed-NodeMove (some (assigning ns j)) (completed _) l v =
      set_all-NodeMove ns (some j) (λ hit. assigning-NodeMove ns j l hit v.0 _ refl)
  completed-NodeMove (some (deleting ns j)) (completed _) l v =
      set_all-NodeMove ns none (λ hit. deleting-NodeMove ns j l hit v _ refl)
  completed-NodeMove (some (checking ns)) (completed bad) l v =
      set_all-NodeMove bad (some "BAD!") (λ hit. marked ns l refl)

start_answered-NodeMove :
    (w : ClusterManagerWorkflow) (node_ids : List String) (n : String) (starting : Bool)
    → w.starting ≡ starting
    → NodeMove w
        (starts node_ids)
        n
        (get n w.state.nodes)
        (get n (start_answered starting node_ids w).0.state.nodes)
unfolding start_answered start_cluster no_assignments get
start_answered-NodeMove w node_ids n false s = unchanged refl
start_answered-NodeMove w node_ids n true s =
    restarted node_ids refl s (get-set_all {V = Option String} node_ids n none [])

-- In a valid state, one turn of the event loop leaves the entry of a node as it is, or gives a
-- free node to the job of an assignment that holds the lock, or frees a node of the job whose
-- deletion holds the lock, or marks the node as bad under a health check. So no assignment takes a
-- node from another job, and no deletion frees a node of another job, however handlers interleave.
-- Two more moves come from `run` starting the cluster while a handler holds the lock, as it may in
-- a run that continues another: the start frees every node that it lists and forgets the others,
-- and of those the assignment or the deletion then adds the ones that it had chosen.
pub step-NodeMove :
    (w : ClusterManagerWorkflow) (e : Event) (n : String)
    → IsValid w
    → NodeMove w e n (get n w.state.nodes) (get n (step w e).0.state.nodes)
unfolding step resume shutdown_cluster
step-NodeMove w (requests h) n v = unchanged (ap (get n) (request_nodes w h))
step-NodeMove w enters n v = unchanged (ap (get n) (enter_nodes w))
step-NodeMove w (resumes r) n v = completed-NodeMove w (resumes r) n w.nodes_lock r refl v.holder
step-NodeMove w shuts_down n v = unchanged (ground arith)
step-NodeMove w (starts node_ids) n v = start_answered-NodeMove w node_ids n w.starting refl
