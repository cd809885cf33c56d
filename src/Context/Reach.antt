-- ===== src/Context/Reach.antt =====
-- The work that one call of a client leads to, and the user id that each part of it sees.
use samples_python.Base.{
  ℕ, none, some, List, [], ◌∷◌, ◌++◌, ◌≡◌, refl, arith, get, get-set_item, All, All-append,
}
use samples_python.Base.Text.{Text, text_eq}
use samples_python.Context.{
  header_key, UserId, ClientCall, start_workflow, query_workflow, signal_workflow,
  start_workflow_update, WorkflowCall, signal_child_workflow, signal_external_workflow,
  start_activity, start_child_workflow, start_local_activity, Inbound, execute_workflow,
  handle_signal, handle_query, handle_update_validator, handle_update_handler, execute_activity,
  Headers, set_header_from_context, context_from_header, client_outbound, workflow_outbound,
  inbound,
}

-- Calls of a workflow, or of a client that an activity has.
pub data Outbound : Type 0 where
  from_client : ClientCall → Outbound
  from_workflow : WorkflowCall → Outbound

module _ {Payload : Type 0} (to_payload : Text → Payload) (from_payload : Payload → Text) where
  -- Work of a worker that makes calls, each with headers of its own and work that it leads to.
  mutual
    pub data Work : Type 0 where
      work : Inbound → Calls → Work

    pub data Calls : Type 0 where
      no_calls : Calls
      and_call : Outbound → Headers to_payload from_payload → Work → Calls → Calls

  unfoldable pub outbound :
      Outbound → UserId → Headers to_payload from_payload → Headers to_payload from_payload
  outbound (from_client c) = client_outbound to_payload from_payload c
  outbound (from_workflow c) = workflow_outbound to_payload from_payload c

  -- The user ids that the parts of the work see, each in a context of its own, and the context that
  -- is left.
  unfoldable mutual
    unfolding inbound

    pub seen : Work → Headers to_payload from_payload → UserId → List UserId × UserId
    seen (work i calls) headers user_id =
        inbound to_payload from_payload i headers (λ u. (u ∷ seen_calls calls u, u)) user_id

    pub seen_calls : Calls → UserId → List UserId
    seen_calls no_calls user_id = []
    seen_calls (and_call o headers w calls) user_id =
        (seen w (outbound o user_id headers) none).0 ++ seen_calls calls user_id

  get-set_header_from_context :
      (c : ℕ) (cs : Text) (headers : Headers to_payload from_payload)
      → get header_key (set_header_from_context to_payload from_payload (some (c ∷ cs)) headers)
        ≡ some (to_payload (c ∷ cs))
  unfolding set_header_from_context
  get-set_header_from_context c cs headers = ground (
    arith,
    get-set_item header_key header_key (to_payload (c ∷ cs)) headers,
    text_eq.same_iff header_key header_key,
  )

  get-outbound :
      (o : Outbound) (c : ℕ) (cs : Text) (headers : Headers to_payload from_payload)
      → get header_key (outbound o (some (c ∷ cs)) headers) ≡ some (to_payload (c ∷ cs))
  unfolding outbound client_outbound workflow_outbound
  get-outbound (from_client start_workflow) c cs h = get-set_header_from_context c cs h
  get-outbound (from_client query_workflow) c cs h = get-set_header_from_context c cs h
  get-outbound (from_client signal_workflow) c cs h = get-set_header_from_context c cs h
  get-outbound (from_client start_workflow_update) c cs h = get-set_header_from_context c cs h
  get-outbound (from_workflow signal_child_workflow) c cs h = get-set_header_from_context c cs h
  get-outbound (from_workflow signal_external_workflow) c cs h = get-set_header_from_context c cs h
  get-outbound (from_workflow start_activity) c cs h = get-set_header_from_context c cs h
  get-outbound (from_workflow start_child_workflow) c cs h = get-set_header_from_context c cs h
  get-outbound (from_workflow start_local_activity) c cs h = get-set_header_from_context c cs h

  inbound-some :
      {A : Type 0} (i : Inbound) (headers : Headers to_payload from_payload)
      (next : UserId → A × UserId) (user_id : UserId) (p : Payload)
      → get header_key headers ≡ some p
      → inbound to_payload from_payload i headers next user_id
        ≡ ((next (some (from_payload p))).0, user_id)
  unfolding inbound context_from_header
  inbound-some execute_activity headers next user_id p e = rw e refl
  inbound-some execute_workflow headers next user_id p e = rw e refl
  inbound-some handle_signal headers next user_id p e = rw e refl
  inbound-some handle_query headers next user_id p e = rw e refl
  inbound-some handle_update_validator headers next user_id p e = rw e refl
  inbound-some handle_update_handler headers next user_id p e = rw e refl

  module _ (converts : (t : Text) → from_payload (to_payload t) ≡ t) (c : ℕ) (cs : Text) where
    mutual
      unfolding seen

      seen_same :
          (w : Work) (headers : Headers to_payload from_payload) (user_id : UserId)
          → get header_key headers ≡ some (to_payload (c ∷ cs))
          → All (λ u. u ≡ some (c ∷ cs)) (seen w headers user_id).0
      seen_same (work i calls) headers user_id e =
          rw
            (
              inbound-some i headers (λ u. (u ∷ seen_calls calls u, u)) user_id
                  (to_payload (c ∷ cs)) e,
              converts (c ∷ cs),
            )
            (refl, seen_calls_same calls)

      seen_calls_same :
          (calls : Calls) → All (λ u. u ≡ some (c ∷ cs)) (seen_calls calls (some (c ∷ cs)))
      seen_calls_same no_calls = tt
      seen_calls_same (and_call o headers w calls) =
          All-append (λ u. u ≡ some (c ∷ cs)) _ _
            (seen_same w (outbound o (some (c ∷ cs)) headers) none (get-outbound o c cs headers))
            (seen_calls_same calls)

    seen_after :
        (w : Work) (headers : Headers to_payload from_payload) (user_id : UserId)
        → get header_key headers ≡ some (to_payload (c ∷ cs))
        → (seen w headers user_id).1 ≡ user_id
    unfolding seen
    seen_after (work i calls) headers user_id e =
        rw
          (inbound-some i headers (λ u. (u ∷ seen_calls calls u, u)) user_id (to_payload (c ∷ cs))
            e)
          refl

    -- A call made with a nonempty user id in the context, by a client, a workflow or an activity,
    -- with any headers of its own: every worker that it reaches, through any tree of further calls,
    -- each of one of the nine kinds that the interceptors override, sees exactly that user id, and the context of the worker is what it was
    -- afterwards. The payload converter gives back the texts that it is given.
    pub outbound-seen :
        (o : Outbound) (headers : Headers to_payload from_payload) (w : Work) (user_id : UserId)
        → let received = outbound o (some (c ∷ cs)) headers in
          All (λ u. u ≡ some (c ∷ cs)) (seen w received user_id).0
          × ((seen w received user_id).1 ≡ user_id)
    outbound-seen o headers w user_id =
        let there = get-outbound o c cs headers in
        (
          seen_same w (outbound o (some (c ∷ cs)) headers) user_id there,
          seen_after w (outbound o (some (c ∷ cs)) headers) user_id there,
        )
