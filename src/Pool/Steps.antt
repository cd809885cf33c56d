-- ===== src/Pool/Steps.antt =====
-- Every turn of the pool's event loop keeps the invariant.
use samples_python.Base.{
  String, Bool, true, false, ◌||◌, Option, none, some, List, [], ◌∷◌, ◌≡◌, refl, inl, inr, arith,
  if◌then◌else◌, string_eq, get, set_item, del_item, Unique, get-set_item, get-del_item,
  set_item-Unique, Option-cases,
}
use samples_python.Pool.{
  AcquireResponse, InternalAcquireRequest, ResourcePoolWorkflowInput, Pending, ResourcePoolWorkflow,
  index_keys, init, add_new, add_resources, acquire_resource, release_held, release_known,
  release_resource, first_free, get_free_resource, can_assign_resource, assign_to,
  assign_next_resource, SignalResult, delivered, external_workflow_execution_not_found, other_error,
  register, finish_assign, assign_resource, should_continue_as_new, next_input, waits, assigns,
  continues_as_new, run_round, after_round, Event, adds, acquires, releases, rounds, answers, round,
  step,
}
use samples_python.Pool.Invariant.{
  Resources, PendingIsConsistent, IsConsistent, get-add_new, add_new-Unique, add_new-Agree,
  release-Agree, register-Agree,
}
use samples_python.Pool.Rebuild.{index_keys-Agree}

-- `uuid4` gives a key that no holder has.
abbrev pub IsFresh : ResourcePoolWorkflow → Event → Type 0
IsFresh w (rounds suggested uuid) = get uuid w.release_key_to_resource ≡ none
IsFresh w _ = Unit

pub first_free-get :
    (held : Resources) (r : String)
    → Unique held
    → first_free held ≡ some r
    → get r held ≡ some none
unfolding first_free get
first_free-get [] r u e = cc
first_free-get ((x, none) ∷ held) r u e = ground (arith, string_eq.same_iff r x)
first_free-get ((x, some h) ∷ held) r u e =
    ground (arith, string_eq.same_iff r x, first_free-get held r u.1 e)

add_resources-IsConsistent :
    (w : ResourcePoolWorkflow) (rs : List String)
    → IsConsistent w
    → IsConsistent (add_resources w rs)
unfolding add_resources
add_resources-IsConsistent w rs v = record {
  unique = add_new-Unique rs w.resources v.unique;
  agree = add_new-Agree rs w.resources w.release_key_to_resource v.agree;
  awaiting = awaits w.pending v.awaiting;
}
  where
    awaits :
        (p : Option Pending)
        → PendingIsConsistent p w.resources w.release_key_to_resource
        → PendingIsConsistent p (add_new rs w.resources) w.release_key_to_resource
    awaits none h = h
    awaits (some p) h = ground (arith, get-add_new rs p.resource w.resources)

release-awaiting :
    (q : Option Pending) (held : Resources) (keys : List (String × String)) (k r : String)
    → PendingIsConsistent q held keys
    → PendingIsConsistent q (set_item r none held) (del_item k keys)
release-awaiting none held keys k r h = h
release-awaiting (some p) held keys k r h =
    ground (arith, get-set_item r p.resource none held, get-del_item k p.release_signal keys)

release_resource-IsConsistent :
    (w : ResourcePoolWorkflow) (a : AcquireResponse)
    → IsConsistent w
    → IsConsistent (release_resource w a).0
unfolding release_resource
release_resource-IsConsistent w a v =
    elim (Option-cases (get a.release_key w.release_key_to_resource)) [
      | inl unknown ↦ rw (unknown, release_known) v
      | inr (r, e) ↦ rw (e, release_known) (held_case r e (get r w.resources))
    ]
  where
    held_case :
        (r : String)
        → get a.release_key w.release_key_to_resource ≡ some r
        → (o : Option (Option InternalAcquireRequest))
        → IsConsistent (release_held o a.release_key r w).0
    held_case r e none = v
    held_case r e (some none) = v
    held_case r e (some (some h)) = record {
      unique = set_item-Unique r none w.resources v.unique;
      agree = release-Agree w.resources w.release_key_to_resource a.release_key r e v.agree;
      awaiting =
          release-awaiting w.pending w.resources w.release_key_to_resource a.release_key r
            v.awaiting;
    }

assign_to-IsConsistent :
    (waiters : List InternalAcquireRequest) (o : Option String) (uuid : String)
    (w : ResourcePoolWorkflow)
    → IsConsistent w
    → w.pending ≡ none
    → first_free w.resources ≡ o
    → get uuid w.release_key_to_resource ≡ none
    → IsConsistent (assign_to waiters o uuid w).0
unfolding assign_to
assign_to-IsConsistent [] o uuid w v p e f = v
assign_to-IsConsistent (x ∷ xs) none uuid w v p e f = v
assign_to-IsConsistent (x ∷ xs) (some r) uuid w v p e f = record {
  unique = v.unique;
  agree = v.agree;
  awaiting = (first_free-get w.resources r v.unique e, f);
}

init-IsConsistent : (w : ResourcePoolWorkflow) → IsConsistent w → IsConsistent (init (next_input w))
unfolding init next_input
init-IsConsistent w v = record {
  unique = v.unique;
  agree = index_keys-Agree w.resources w.release_key_to_resource v.unique v.agree;
  awaiting = tt;
}

round_cases :
    (w w' : ResourcePoolWorkflow) (input : ResourcePoolWorkflowInput)
    (ready assigned suggested : Bool)
    → IsConsistent w
    → IsConsistent w'
    → IsConsistent (init input)
    → IsConsistent (
        after_round w (
          if ready
          then (if assigned
              then assigns w'
              else if suggested
              then continues_as_new input
              else waits)
          else waits))
round_cases w w' input false assigned suggested v v' u = v
round_cases w w' input true true suggested v v' u = v'
round_cases w w' input true false true v v' u = u
round_cases w w' input true false false v v' u = v

run_round-IsConsistent :
    (w : ResourcePoolWorkflow) (suggested : Bool) (uuid : String)
    → IsConsistent w
    → w.pending ≡ none
    → get uuid w.release_key_to_resource ≡ none
    → IsConsistent (after_round w (run_round w suggested uuid))
unfolding run_round assign_next_resource get_free_resource
run_round-IsConsistent w suggested uuid v p f =
    let assigned = assign_to-IsConsistent w.waiters (first_free w.resources) uuid w v p refl f in
    let renewed = init-IsConsistent w v in
    round_cases w _ _ (can_assign_resource w || should_continue_as_new w suggested) _
      (should_continue_as_new w suggested) v assigned renewed

finish_assign-IsConsistent :
    (p : Option Pending) (r : SignalResult) (w : ResourcePoolWorkflow)
    → w.pending ≡ p
    → IsConsistent w
    → IsConsistent (finish_assign p r w).0
unfolding finish_assign register
finish_assign-IsConsistent none r w e v = v
finish_assign-IsConsistent (some p) delivered w e v = record {
  unique = set_item-Unique p.resource _ w.resources v.unique;
  agree = register-Agree w.resources w.release_key_to_resource p (rw e at v.awaiting) v.agree;
  awaiting = tt;
}
finish_assign-IsConsistent (some p) external_workflow_execution_not_found w e v = record {
  unique = v.unique;
  agree = v.agree;
  awaiting = tt;
}
finish_assign-IsConsistent (some p) other_error w e v = record {
  unique = v.unique;
  agree = v.agree;
  awaiting = tt;
}

-- Every turn of the event loop keeps the pool consistent, provided that `uuid4` gives a key that no
-- holder has: each resource stands once, every holder has a release key, the table of release keys
-- holds those keys and no others, each with its holder's resource, and a resource that is being
-- assigned stays free, with a key that is not in use, until the assignment ends.
pub step-IsConsistent :
    (w : ResourcePoolWorkflow) (e : Event) → IsConsistent w → IsFresh w e → IsConsistent (step w e)
unfolding step acquire_resource assign_resource
step-IsConsistent w (adds rs) v f = add_resources-IsConsistent w rs v
step-IsConsistent w (acquires id) v f = record {
  unique = v.unique;
  agree = v.agree;
  awaiting = v.awaiting;
}
step-IsConsistent w (releases a) v f = release_resource-IsConsistent w a v
step-IsConsistent w (rounds suggested uuid) v f = go w.pending refl
  where
    go : (p : Option Pending) → w.pending ≡ p → IsConsistent (round p suggested uuid w)
    go none e = run_round-IsConsistent w suggested uuid v e f
    go (some p) e = v
step-IsConsistent w (answers r) v f = finish_assign-IsConsistent w.pending r w refl v

-- A pool that starts with no resource is consistent.
pub init_empty-IsConsistent : IsConsistent (init (record { resources = []; waiters = [] }))
unfolding init index_keys get
init_empty-IsConsistent = record {
  unique = tt;
  agree = record { keyed = λ r h. cc; forward = λ k r h. cc; backward = λ k r h. cc };
  awaiting = tt;
}
