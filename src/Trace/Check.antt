-- ===== src/Trace/Check.antt =====
-- The checks of `_verify_trace`, and the polling before them.
use samples_python.Base.{
  ℕ, suc, zero, Bool, true, false, ◌&&◌, ◌||◌, not, Option, none, some, List, [], ◌∷◌, ◌++◌, map,
  if◌then◌else◌, nat_beq, ltb, length, contains, add, ◌==◌, is_none, Hashable,
}
use samples_python.Base.Text.{Text, text, text_eq}
use samples_python.Trace.{Observation, LangfuseTrace, Row, row_eq, generation, build_tree}
use samples_python.Trace.Expected.{expected_approved, expected_declined}

pub data Failure : Type 0 where
  duplicate_ids duplicate_rows tree_mismatch : Failure
  missing_model missing_token_usage missing_content : (id : Text) → Failure
  wrong_name no_session_id no_user_id missing_tag : Failure

pub data ExpectedOutcome : Type 0 where
  approved declined : ExpectedOutcome

abbrev pub expected_tree : ExpectedOutcome → List Row
expected_tree approved = expected_approved
expected_tree declined = expected_declined

module _ {A : Type 0} ⦃e : Hashable A⦄ where
  -- `set(xs)`
  unfoldable pub set_of : List A → List A
  set_of [] = []
  set_of (x ∷ xs) = add x (set_of xs)

  -- `len(set(xs)) != len(xs)`
  abbrev pub has_duplicates : List A → Bool
  has_duplicates xs = not (nat_beq (length (set_of xs)) (length xs))

-- `actual != expected`
unfoldable pub rows_beq : List Row → List Row → Bool
rows_beq [] [] = true
rows_beq [] (y ∷ ys) = false
rows_beq (x ∷ xs) [] = false
rows_beq (x ∷ xs) (y ∷ ys) = x == y && rows_beq xs ys

-- Whether a number or a text is there and not zero or empty.
abbrev pub truthy : Option ℕ → Bool
truthy none = false
truthy (some zero) = false
truthy (some (suc n)) = true

abbrev pub truthy_text : Option Text → Bool
truthy_text none = false
truthy_text (some []) = false
truthy_text (some (c ∷ cs)) = true

abbrev pub named : Option Text → Text → Bool
named none t = false
named (some s) t = s == t

-- A failure where the condition holds.
abbrev pub fail_if : Bool → Failure → List Failure
fail_if true f = f ∷ []
fail_if false f = []

abbrev pub check_generation : (require_content : Bool) → Observation → List Failure
check_generation require_content o =
    fail_if (not (truthy_text o.model)) (missing_model o.id)
    ++ fail_if (not (truthy o.usage_input) || not (truthy o.usage_output))
        (missing_token_usage o.id)
    ++ fail_if (require_content && (is_none o.input || is_none o.output)) (missing_content o.id)

unfoldable pub check_generations : (require_content : Bool) → List Observation → List Failure
check_generations require_content [] = []
check_generations require_content (o ∷ os) =
    if not (o.type == generation)
    then check_generations require_content os
    else check_generation require_content o ++ check_generations require_content os

abbrev pub check_trace : LangfuseTrace → List Failure
check_trace trace =
    fail_if (not (named trace.name (text "ticket-triage"))) wrong_name
    ++ fail_if (not (truthy_text trace.session_id)) no_session_id
    ++ fail_if (not (truthy_text trace.user_id)) no_user_id
    ++ fail_if (not (contains (text "temporal") trace.tags)) missing_tag

abbrev pub failures :
    ExpectedOutcome → (require_content : Bool) → LangfuseTrace → (actual : List Row) → List Failure
failures expect require_content trace actual =
    fail_if (has_duplicates (map (λ (o : Observation). o.id) trace.observations)) duplicate_ids
    ++ fail_if (has_duplicates actual) duplicate_rows
    ++ fail_if (not (rows_beq actual (expected_tree expect))) tree_mismatch
    ++ check_generations require_content trace.observations
    ++ check_trace trace

-- The trace of the first poll that sees as many observations as the one before it, and some; the
-- polls are those up to the deadline, and one that finds no trace is passed over.
abbrev pub is_stable : (count : ℕ) → (previous_count : Option ℕ) → Bool
is_stable count none = false
is_stable count (some previous_count) = ltb 0 count && nat_beq count previous_count

unfoldable pub poll_stable_trace :
    (previous_count : Option ℕ) → List (Option LangfuseTrace) → Option LangfuseTrace
poll_stable_trace previous_count [] = none
poll_stable_trace previous_count (none ∷ polls) = poll_stable_trace previous_count polls
poll_stable_trace previous_count (some trace ∷ polls) =
    let count = length trace.observations in
    let later = poll_stable_trace (some count) polls in
    if is_stable count previous_count then some trace else later

-- The exit code, or an exception: the deadline, or a recursion that does not end (Python's limit on
-- the depth of a recursion, which a deep tree meets too, is not modelled).
pub data Outcome : Type 0 where
  exit_code : ℕ → Outcome
  not_fully_ingested recursion_error : Outcome

abbrev pub code_of : List Failure → Outcome
code_of [] = exit_code 0
code_of (f ∷ fs) = exit_code 1

abbrev pub check_tree :
    ExpectedOutcome → (require_content : Bool) → LangfuseTrace → Option (List Row) → Outcome
check_tree expect require_content trace none = recursion_error
check_tree expect require_content trace (some actual) =
    code_of (failures expect require_content trace actual)

abbrev pub check_polled :
    ExpectedOutcome → (require_content : Bool) → Option LangfuseTrace → Outcome
check_polled expect require_content none = not_fully_ingested
check_polled expect require_content (some trace) =
    check_tree expect require_content trace (build_tree trace.observations)

-- `_verify_trace`, with what the API answers about the trace id, the workflow id, and each poll.
unfoldable pub verify_trace :
    ExpectedOutcome
    → (require_content : Bool) → (trace_id resolved : Option Text) → List (Option LangfuseTrace)
    → Outcome
unfolding poll_stable_trace
verify_trace expect require_content trace_id resolved polls =
    if truthy_text trace_id || truthy_text resolved
    then check_polled expect require_content (poll_stable_trace none polls)
    else exit_code 1
