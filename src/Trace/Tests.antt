-- ===== src/Trace/Tests.antt =====
-- A ticket that was declined, and traces that fail.
use samples_python.Base.{
  ◌≡◌, ◌≢◌, ◌↔◌, ◌||◌, Option, none, some, List, [], ◌∷◌, refl, true, false, contains, add, get,
  set_item,
}
use samples_python.Base.Text.{Text, text, text_beq, text_eq}
use samples_python.Trace.{
  Observation, LangfuseTrace, generation, build_tree, children_from, text_leb, walk_all,
  normalized_name,
}
use samples_python.Trace.Descent.{build_tree-some}
use samples_python.Trace.Check.{
  declined, approved, exit_code, not_fully_ingested, recursion_error, set_of, rows_beq,
  check_generations, poll_stable_trace, verify_trace, truthy_text,
}
use samples_python.Trace.Stable.{present, FirstStable}
use samples_python.Trace.Verify.{Passes, verify_trace-Passes}

abbrev span : Text → Option Text → Text → Observation
span id parent name = record {
  id = id;
  parent_observation_id = parent;
  name = name;
  type = text "SPAN";
  model = none;
  usage_input = none;
  usage_output = none;
  input = none;
  output = none;
}

abbrev llm : Observation
llm = record {
  id = text "g";
  parent_observation_id = some (text "f");
  name = text "chat";
  type = generation;
  model = some (text "m");
  usage_input = some 3;
  usage_output = some 4;
  input = none;
  output = none;
}

abbrev declined_observations : List Observation
declined_observations =
    llm
    ∷ span (text "l") (some (text "j")) (text "ValidateUpdate:approve")
    ∷ span (text "a") none (text "ticket-triage")
    ∷ span (text "b") (some (text "a")) (text "StartWorkflow:TicketTriageWorkflow")
    ∷ span (text "c") (some (text "b")) (text "RunWorkflow:TicketTriageWorkflow")
    ∷ span (text "d") (some (text "c")) (text "triage")
    ∷ span (text "h") (some (text "d")) (text "StartActivity:lookup_account")
    ∷ span (text "e") (some (text "d")) (text "StartActivity:classify_ticket")
    ∷ span (text "f") (some (text "e")) (text "RunActivity:classify_ticket")
    ∷ span (text "i") (some (text "h")) (text "RunActivity:lookup_account")
    ∷ span (text "j") (some (text "a")) (text "StartWorkflowUpdate:approve")
    ∷ span (text "k") (some (text "j")) (text "HandleUpdate:approve")
    ∷ []

abbrev trace_of : List Observation → LangfuseTrace
trace_of observations = record {
  observations = observations;
  name = some (text "ticket-triage");
  session_id = some (text "w");
  user_id = some (text "u");
  tags = text "temporal" ∷ [];
}

abbrev polls : List (Option LangfuseTrace)
polls =
    none
    ∷ some (trace_of (llm ∷ []))
    ∷ some (trace_of declined_observations)
    ∷ some (trace_of declined_observations)
    ∷ []

passes_test : verify_trace declined false (some (text "t")) none polls ≡ exit_code 0
unfolding verify_trace poll_stable_trace build_tree children_from walk_all normalized_name text_leb
    rows_beq set_of add contains check_generations get set_item text_beq
passes_test = refl

-- The content of the generation is not there.
content_test : verify_trace declined true none (some (text "t")) polls ≡ exit_code 1
unfolding verify_trace poll_stable_trace build_tree children_from walk_all normalized_name text_leb
    rows_beq set_of add contains check_generations get set_item text_beq
content_test = refl

late_test :
    verify_trace declined false (some (text "t")) none (none ∷ some (trace_of (llm ∷ [])) ∷ [])
    ≡ not_fully_ingested
unfolding verify_trace poll_stable_trace
late_test = refl

-- An id that stands twice, under a root and under itself.
abbrev twice : LangfuseTrace
twice =
    trace_of (span (text "a") none (text "x") ∷ span (text "a") (some (text "a")) (text "y") ∷ [])

-- The recursion does not end, and no duplicate is reported.
twice_test :
    verify_trace approved false (some (text "t")) none (some twice ∷ some twice ∷ [])
    ≡ recursion_error
unfolding verify_trace poll_stable_trace build_tree children_from walk_all normalized_name text_leb
    get set_item text_beq
twice_test = refl

verify_trace-Passes_example :
    (verify_trace declined false (some (text "t")) none polls ≡ exit_code 0) ↔ (
      ((truthy_text (some (text "t")) || truthy_text none) ≡ true)
      × ((trace : LangfuseTrace) × FirstStable (present polls) trace × Passes declined false trace))
verify_trace-Passes_example = verify_trace-Passes declined false (some (text "t")) none polls

build_tree-some_example : build_tree declined_observations ≢ none
unfolding contains text_beq
build_tree-some_example = build_tree-some declined_observations (
  refl,
  (refl, (refl, (refl, (refl, (refl, (refl, (refl, (refl, (refl, (refl, (refl, tt))))))))))),
)
