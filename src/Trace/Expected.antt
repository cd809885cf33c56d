-- ===== src/Trace/Expected.antt =====
-- The trees of the two outcomes of the ticket workflow.
use samples_python.Base.{List, [], ◌∷◌}
use samples_python.Base.Text.{text}
use samples_python.Trace.{Row}

abbrev pub expected_approved : List Row
expected_approved =
    ((0, text "ticket-triage"), text "SPAN")
    ∷ ((1, text "StartWorkflow:TicketTriageWorkflow"), text "SPAN")
    ∷ ((2, text "RunWorkflow:TicketTriageWorkflow"), text "SPAN")
    ∷ ((3, text "StartActivity:draft_reply"), text "SPAN")
    ∷ ((4, text "RunActivity:draft_reply"), text "SPAN")
    ∷ ((5, text "<generation>"), text "GENERATION")
    ∷ ((3, text "triage"), text "SPAN")
    ∷ ((4, text "StartActivity:classify_ticket"), text "SPAN")
    ∷ ((5, text "RunActivity:classify_ticket"), text "SPAN")
    ∷ ((6, text "<generation>"), text "GENERATION")
    ∷ ((4, text "StartActivity:lookup_account"), text "SPAN")
    ∷ ((5, text "RunActivity:lookup_account"), text "SPAN")
    ∷ ((1, text "StartWorkflowUpdate:approve"), text "SPAN")
    ∷ ((2, text "HandleUpdate:approve"), text "SPAN")
    ∷ ((2, text "ValidateUpdate:approve"), text "SPAN")
    ∷ []

abbrev pub expected_declined : List Row
expected_declined =
    ((0, text "ticket-triage"), text "SPAN")
    ∷ ((1, text "StartWorkflow:TicketTriageWorkflow"), text "SPAN")
    ∷ ((2, text "RunWorkflow:TicketTriageWorkflow"), text "SPAN")
    ∷ ((3, text "triage"), text "SPAN")
    ∷ ((4, text "StartActivity:classify_ticket"), text "SPAN")
    ∷ ((5, text "RunActivity:classify_ticket"), text "SPAN")
    ∷ ((6, text "<generation>"), text "GENERATION")
    ∷ ((4, text "StartActivity:lookup_account"), text "SPAN")
    ∷ ((5, text "RunActivity:lookup_account"), text "SPAN")
    ∷ ((1, text "StartWorkflowUpdate:approve"), text "SPAN")
    ∷ ((2, text "HandleUpdate:approve"), text "SPAN")
    ∷ ((2, text "ValidateUpdate:approve"), text "SPAN")
    ∷ []
