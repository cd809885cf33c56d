-- ===== src/Pool/User/Giving.antt =====
-- A run of the resource user gives back what it borrowed.
use samples_python.Base.{
  String, Bool, false, Option, none, some, List, [], ◌∷◌, ◌++◌, ◌≡◌, refl, ap, arith,
}
use samples_python.Pool.{AcquireResponse}
use samples_python.Pool.User.{
  DetachedResource, AcquiredResource, ResourcePoolClient, handle_acquire_response, handle_responses,
  ResourceUserWorkflowInput, Effect, signals_acquire, signals_release, uses_resource, Exit,
  continued, iterate, end_body, release_unless_detached, response_of, with_resource, first_acquired,
  acquire, use_acquired, run,
}

-- The releases among the effects.
abbrev pub releases_of : List Effect → List AcquireResponse
releases_of [] = []
releases_of (signals_acquire w ∷ es) = releases_of es
releases_of (signals_release r ∷ es) = r ∷ releases_of es
releases_of (uses_resource r i ∷ es) = releases_of es

releases_of-append :
    (es fs : List Effect) → releases_of (es ++ fs) ≡ releases_of es ++ releases_of fs
releases_of-append [] fs = refl
releases_of-append (signals_acquire w ∷ es) fs = releases_of-append es fs
releases_of-append (signals_release r ∷ es) fs = ap (λ l. r ∷ l) (releases_of-append es fs)
releases_of-append (uses_resource r i ∷ es) fs = releases_of-append es fs

abbrev given : Option DetachedResource → List AcquireResponse
given none = []
given (some d) = record { release_key = d.release_key; resource = d.resource } ∷ []

abbrev pub acquired_from : Option DetachedResource → List AcquireResponse → List AcquireResponse
acquired_from (some d) responses = given (some d)
acquired_from none [] = []
acquired_from none (r ∷ rs) = r ∷ []

iterate_no_release :
    (input : ResourceUserWorkflowInput) (resource : String) (succeeds : String → Bool)
    (is : List String)
    → releases_of (iterate input resource succeeds is).0 ≡ []
unfolding iterate
iterate_no_release input resource succeeds [] = refl
iterate_no_release input resource succeeds (i ∷ is) =
    ground (arith, iterate_no_release input resource succeeds is)

-- The resource that the next run of the workflow starts with.
abbrev pub handed_on : Exit → List AcquireResponse
handed_on (continued next) = given next.already_acquired_resource
handed_on _ = []

abbrev left_with : Option Exit → List AcquireResponse
left_with none = []
left_with (some exit) = handed_on exit

iterate_hands_nothing :
    (input : ResourceUserWorkflowInput) (resource : String) (succeeds : String → Bool)
    (is : List String)
    → left_with (iterate input resource succeeds is).1 ≡ []
unfolding iterate
iterate_hands_nothing input resource succeeds [] = refl
iterate_hands_nothing input resource succeeds (i ∷ is) =
    ground (arith, iterate_hands_nothing input resource succeeds is)

end_body-release :
    (input : ResourceUserWorkflowInput) (r : AcquiredResource) (left : Option Exit)
    → left_with left ≡ []
    → r.detached ≡ false
    → let (r', exit) = end_body input r left in
      releases_of (release_unless_detached r') ++ handed_on exit ≡ response_of r ∷ []
unfolding end_body release_unless_detached
end_body-release input r none h d = ground arith
end_body-release input r (some exit) h d = rw (d, h)

with_resource-release :
    (input : ResourceUserWorkflowInput) (succeeds : String → Bool) (r : AcquiredResource)
    → r.detached ≡ false
    → let (effects, exit) = with_resource input succeeds r in
      releases_of effects ++ handed_on exit ≡ response_of r ∷ []
unfolding with_resource
with_resource-release input succeeds r d =
    let is : List String = "first" ∷ "second" ∷ [] in
    rw (releases_of-append, iterate_no_release input r.resource succeeds is)
      (end_body-release input r (iterate input r.resource succeeds is).1
        (iterate_hands_nothing input r.resource succeeds is) d)

first_acquired-stays :
    (c : ResourcePoolClient) (x : AcquiredResource) (xs : List AcquiredResource)
    (rs : List AcquireResponse)
    → c.acquired_resources ≡ x ∷ xs
    → first_acquired (handle_responses c rs).acquired_resources ≡ some x
unfolding handle_responses first_acquired
first_acquired-stays c x xs [] e = rw (e, first_acquired)
first_acquired-stays c x xs (r ∷ rs) e =
    let later =
      record { resource = r.resource; release_key = r.release_key; detached = false } ∷ [] in
    first_acquired-stays (handle_acquire_response c r) x (xs ++ later) rs
      (ap (λ (l : List AcquiredResource). l ++ later) e)

use_acquired-release :
    (input : ResourceUserWorkflowInput) (succeeds : String → Bool) (r : AcquiredResource)
    (sent : List Effect)
    → releases_of sent ≡ []
    → r.detached ≡ false
    → let (effects, exit) = use_acquired input succeeds (sent, some r) in
      releases_of effects ++ handed_on exit ≡ response_of r ∷ []
unfolding use_acquired
use_acquired-release input succeeds r sent h d =
    rw (releases_of-append, h) (with_resource-release input succeeds r d)

-- The resource that a run comes to hold: the one handed to it, or else the first that the pool
-- assigns to it in time.
abbrev pub acquired : ResourceUserWorkflowInput → List AcquireResponse → List AcquireResponse
acquired input responses = acquired_from input.already_acquired_resource responses

-- A run gives back exactly what it came to hold, exactly once, whichever activity fails and however
-- the run ends: the releases that it sends, followed by what it hands on when it continues as new,
-- are the resource that it held, and nothing if it held none.
pub run-releases :
    (input : ResourceUserWorkflowInput) (workflow_id : String) (responses : List AcquireResponse)
    (succeeds : String → Bool)
    → let (effects, exit) = run input workflow_id responses succeeds in
      releases_of effects ++ handed_on exit ≡ acquired input responses
unfolding run
run-releases input workflow_id responses succeeds = go input.already_acquired_resource responses
  where
    c : ResourcePoolClient
    c = record { pool_workflow_id = input.resource_pool_workflow_id; acquired_resources = [] }

    go :
        (given_to_it : Option DetachedResource) (rs : List AcquireResponse)
        → let (effects, exit) =
            use_acquired input succeeds (acquire workflow_id c given_to_it rs) in
          releases_of effects ++ handed_on exit ≡ acquired_from given_to_it rs
    go (some d) rs = use_acquired-release input succeeds _ [] refl refl
    go none [] = refl
    go none (r ∷ rs) =
        rw (first_acquired-stays (handle_acquire_response c r) _ [] rs refl)
          (use_acquired-release input succeeds _ (signals_acquire workflow_id ∷ []) refl refl)
