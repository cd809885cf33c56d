-- ===== src/Context/Tests.antt =====
-- A client that starts a workflow, which starts an activity and signals a child.
use samples_python.Base.{none, some, [], ◌∷◌, ◌≡◌, refl, All, get, set_item}
use samples_python.Base.Text.{Text, text, text_beq, text_eq}
use samples_python.Context.{
  start_workflow, start_activity, signal_child_workflow, execute_workflow, execute_activity,
  handle_signal, set_header_from_context, context_from_header, client_outbound, workflow_outbound,
  inbound,
}
use samples_python.Context.Reach.{
  from_client, from_workflow, Work, work, no_calls, and_call, outbound, seen, outbound-seen,
}

abbrev keep : Text → Text
keep t = t

abbrev tree : Work keep keep
tree = work execute_workflow (
    and_call (from_workflow start_activity) [] (work execute_activity no_calls)
      (and_call (from_workflow signal_child_workflow) [] (work handle_signal no_calls) no_calls))

seen_test :
    (seen keep keep tree
      (outbound keep keep (from_client start_workflow) (some (text "u")) [])
      none).0
    ≡ some (text "u") ∷ some (text "u") ∷ some (text "u") ∷ []
unfolding seen inbound context_from_header outbound client_outbound workflow_outbound
    set_header_from_context get set_item text_beq
seen_test = refl

-- Without a user id none is sent.
nobody_test :
    (seen keep keep tree (outbound keep keep (from_client start_workflow) none []) none).0
    ≡ none ∷ none ∷ none ∷ []
unfolding seen inbound context_from_header outbound client_outbound workflow_outbound
    set_header_from_context get set_item text_beq
nobody_test = refl

outbound-seen_example :
    let received = outbound keep keep (from_client start_workflow) (some (text "u")) [] in
    All (λ u. u ≡ some (text "u")) (seen keep keep tree received none).0
    × ((seen keep keep tree received none).1 ≡ none)
outbound-seen_example =
    outbound-seen keep keep (λ t. refl) b'u' [] (from_client start_workflow) [] tree none
