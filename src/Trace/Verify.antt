-- ===== src/Trace/Verify.antt =====
-- What the exit code 0 says of a trace.
use samples_python.Base.{
  Bool, true, false, ◌&&◌, ◌||◌, not, Option, none, some, List, [], ◌∷◌, ◌++◌, map, ◌≡◌, ◌≢◌, ◌↔◌,
  refl, ◌∙◌, ap, inl, inr, arith, contains, add, Distinct, ◌==◌, is_none, All, Bool-cases,
  Option-cases, subst,
}
use samples_python.Base.Text.{Text, text, text_eq, text_beq}
use samples_python.Trace.{Observation, LangfuseTrace, Row, row_eq, generation, build_tree}
use samples_python.Trace.Check.{
  Failure, duplicate_ids, duplicate_rows, tree_mismatch, missing_model, missing_token_usage,
  missing_content, ExpectedOutcome, approved, declined, expected_tree, set_of, has_duplicates,
  rows_beq, truthy, truthy_text, named, fail_if, check_generation, check_generations, check_trace,
  failures, poll_stable_trace, exit_code, code_of, check_tree, verify_trace,
}
use samples_python.Trace.Stable.{present, FirstStable, poll_stable_trace-FirstStable}
use samples_python.Trace.Duplicates.{has_duplicates-Distinct}

rows_beq_iff : (xs ys : List Row) → (rows_beq xs ys ≡ true) ↔ (xs ≡ ys)
unfolding rows_beq
rows_beq_iff [] [] = ground arith
rows_beq_iff [] (y ∷ ys) = ground arith
rows_beq_iff (x ∷ xs) [] = ground arith
rows_beq_iff (x ∷ xs) (y ∷ ys) = ground (arith, rows_beq_iff xs ys, row_eq.same_iff x y)

append_nil : (xs ys : List Failure) → (xs ++ ys ≡ []) ↔ ((xs ≡ []) × (ys ≡ []))
append_nil [] ys = ground arith
append_nil (x ∷ xs) ys = ground arith

fail_if_nil : (b : Bool) (f : Failure) → (fail_if b f ≡ []) ↔ (b ≡ false)
fail_if_nil true f = ground arith
fail_if_nil false f = ground arith

-- A generation has a model and token usage, and its content if that is required.
pub Complete : (require_content : Bool) → Observation → Type 0
Complete require_content o =
    o.type ≡ generation
    → (truthy_text o.model ≡ true)
      × (truthy o.usage_input ≡ true)
      × (truthy o.usage_output ≡ true)
      × (require_content ≡ true → (o.input ≢ none) × (o.output ≢ none))

-- What a trace must be.
pub Passes : ExpectedOutcome → (require_content : Bool) → LangfuseTrace → Type 0
Passes expect require_content trace =
    Distinct (map (λ (o : Observation). o.id) trace.observations)
    × (build_tree trace.observations ≡ some (expected_tree expect))
    × All (Complete require_content) trace.observations
    × (trace.name ≡ some (text "ticket-triage"))
    × (truthy_text trace.session_id ≡ true)
    × (truthy_text trace.user_id ≡ true)
    × (contains (text "temporal") trace.tags ≡ true)

is_none-false {ℓ} : {A : Type ℓ} (o : Option A) → (is_none o ≡ false) ↔ (o ≢ none)
is_none-false none = ground arith
is_none-false (some a) = ground arith

check_generation-Complete :
    (r : Bool) (o : Observation) → o.type ≡ generation → (check_generation r o ≡ []) ↔ Complete r o
unfolding Complete
check_generation-Complete r o g =
    let first = append_nil (fail_if (not (truthy_text o.model)) (missing_model o.id)) (
      fail_if (not (truthy o.usage_input) || not (truthy o.usage_output)) (missing_token_usage o.id)
      ++ fail_if (r && (is_none o.input || is_none o.output)) (missing_content o.id)) in
    let second =
      append_nil
        (fail_if (not (truthy o.usage_input) || not (truthy o.usage_output))
          (missing_token_usage o.id))
        (fail_if (r && (is_none o.input || is_none o.output)) (missing_content o.id)) in
    ground (
      arith,
      g,
      first,
      second,
      is_none-false o.input,
      is_none-false o.output,
      fail_if_nil (not (truthy_text o.model)) (missing_model o.id),
      fail_if_nil (not (truthy o.usage_input) || not (truthy o.usage_output))
          (missing_token_usage o.id),
      fail_if_nil (r && (is_none o.input || is_none o.output)) (missing_content o.id),
    )

check_generations-Complete :
    (r : Bool) (os : List Observation) → (check_generations r os ≡ []) ↔ All (Complete r) os
unfolding check_generations Complete
check_generations-Complete r [] = ((λ h. tt), (λ h. refl))
check_generations-Complete r (o ∷ os) = elim (Bool-cases (o.type == generation)) [
  | inr other ↦ rw other (
    (λ h. (
      (λ g. ground (arith, other, g, text_eq.same_iff o.type generation)),
      (check_generations-Complete r os).0 h,
    )),
    (λ h. (check_generations-Complete r os).1 h.1),
  )
  | inl is_generation ↦
      let g = (text_eq.same_iff o.type generation).0 is_generation in
      rw is_generation (
        (λ h.
            let parts = (append_nil (check_generation r o) (check_generations r os)).0 h in
            (
              (check_generation-Complete r o g).0 parts.0,
              (check_generations-Complete r os).0 parts.1,
            )),
        (λ h.
            (append_nil (check_generation r o) (check_generations r os)).1
              ((check_generation-Complete r o g).1 h.0, (check_generations-Complete r os).1 h.1)),
      )
]

named-some : (o : Option Text) (t : Text) → (named o t ≡ true) ↔ (o ≡ some t)
named-some none t = ground arith
named-some (some s) t = ground (arith, text_eq.same_iff s t)

check_trace_nil :
    (trace : LangfuseTrace)
    → (check_trace trace ≡ []) ↔ (
        (trace.name ≡ some (text "ticket-triage"))
        × (truthy_text trace.session_id ≡ true)
        × (truthy_text trace.user_id ≡ true)
        × (contains (text "temporal") trace.tags ≡ true))
check_trace_nil trace = ground (arith, named-some trace.name (text "ticket-triage"))

expected_tree-Distinct : (expect : ExpectedOutcome) → has_duplicates (expected_tree expect) ≡ false
unfolding set_of add contains text_beq
expected_tree-Distinct approved = refl
expected_tree-Distinct declined = refl

append5_nil :
    (a b c d e : List Failure)
    → (a ++ b ++ c ++ d ++ e ≡ []) ↔ ((a ≡ []) × (b ≡ []) × (c ≡ []) × (d ≡ []) × (e ≡ []))
append5_nil a b c d e = ground (
  arith,
  append_nil (a ++ b ++ c ++ d) e,
  append_nil (a ++ b ++ c) d,
  append_nil (a ++ b) c,
  append_nil a b,
)

not-false : (b : Bool) → (not b ≡ false) ↔ (b ≡ true)
not-false true = ground arith
not-false false = ground arith

failures-Passes :
    (expect : ExpectedOutcome) (r : Bool) (trace : LangfuseTrace) (rows : List Row)
    → (failures expect r trace rows ≡ []) ↔ (
        Distinct (map (λ (o : Observation). o.id) trace.observations)
        × (rows ≡ expected_tree expect)
        × All (Complete r) trace.observations
        × (trace.name ≡ some (text "ticket-triage"))
        × (truthy_text trace.session_id ≡ true)
        × (truthy_text trace.user_id ≡ true)
        × (contains (text "temporal") trace.tags ≡ true))
failures-Passes expect r trace rows =
    let ids = map (λ (o : Observation). o.id) trace.observations in
    let parts =
      append5_nil (fail_if (has_duplicates ids) duplicate_ids)
        (fail_if (has_duplicates rows) duplicate_rows)
        (fail_if (not (rows_beq rows (expected_tree expect))) tree_mismatch)
        (check_generations r trace.observations) (check_trace trace) in
    let id_check = fail_if_nil (has_duplicates ids) duplicate_ids in
    let row_check = fail_if_nil (has_duplicates rows) duplicate_rows in
    let tree_check = fail_if_nil (not (rows_beq rows (expected_tree expect))) tree_mismatch in
    let flip = not-false (rows_beq rows (expected_tree expect)) in
    let same = rows_beq_iff rows (expected_tree expect) in
    (
      (λ none_found.
          let found = parts.0 none_found in
          let enriched = (check_trace_nil trace).0 found.4 in
          (
            (has_duplicates-Distinct ids).0 (id_check.0 found.0),
            same.0 (flip.0 (tree_check.0 found.2)),
            (check_generations-Complete r trace.observations).0 found.3,
            enriched.0,
            enriched.1,
            enriched.2,
            enriched.3,
          )),
      (λ good. parts.1 (
        id_check.1 ((has_duplicates-Distinct ids).1 good.0),
        row_check.1 (ap has_duplicates good.1 ∙ expected_tree-Distinct expect),
        tree_check.1 (flip.1 (same.1 good.1)),
        (check_generations-Complete r trace.observations).1 good.2,
        (check_trace_nil trace).1 (good.3, good.4, good.5, good.6),
      )),
    )

code_of-0 : (fs : List Failure) → (code_of fs ≡ exit_code 0) ↔ (fs ≡ [])
code_of-0 [] = ground arith
code_of-0 (f ∷ fs) = ground arith

check_tree-Passes :
    (expect : ExpectedOutcome) (r : Bool) (trace : LangfuseTrace) (o : Option (List Row))
    → build_tree trace.observations ≡ o
    → (check_tree expect r trace o ≡ exit_code 0) ↔ Passes expect r trace
unfolding Passes
check_tree-Passes expect r trace none e = ((λ h. ground (arith, h)), (λ p. ground (arith, e, p.1)))
check_tree-Passes expect r trace (some rows) e =
    let codes = code_of-0 (failures expect r trace rows) in
    let good = failures-Passes expect r trace rows in
    (
      (λ h. let p = good.0 (codes.0 h) in (p.0, e ∙ ap some p.1, p.2, p.3, p.4, p.5, p.6)),
      (λ p.
          let same : rows ≡ expected_tree expect = ground (arith, e, p.1) in
          codes.1 (good.1 (p.0, same, p.2, p.3, p.4, p.5, p.6))),
    )

-- The exit code is 0 exactly if a trace id was given or found, and, among the polls before the
-- deadline that found the trace at all, some poll saw at least one observation and as many as the
-- one before it, and the trace of the first such poll has distinct ids
-- of observations, the expected tree, a model and token usage at each generation, with its content
-- if that is required, the name, a session, a user and the tag. The check for duplicate rows
-- excludes nothing more.
pub verify_trace-Passes :
    (expect : ExpectedOutcome) (require_content : Bool) (trace_id resolved : Option Text)
    (polls : List (Option LangfuseTrace))
    → (verify_trace expect require_content trace_id resolved polls ≡ exit_code 0) ↔ (
        ((truthy_text trace_id || truthy_text resolved) ≡ true)
        × ((trace : LangfuseTrace) × FirstStable (present polls) trace
            × Passes expect require_content trace))
unfolding verify_trace
verify_trace-Passes expect r trace_id resolved polls =
    let first = poll_stable_trace-FirstStable polls in
    elim (Bool-cases (truthy_text trace_id || truthy_text resolved)) [
      | inr unknown ↦ rw unknown ((λ h. ground (arith, h)), (λ h. ground (arith, h.0)))
      | inl known ↦ rw known (elim (Option-cases (poll_stable_trace none polls)) [
        | inl late ↦
            rw late ((λ h. ground (arith, h)), (λ h. ground (arith, (first h.1.0).1 h.1.1)))
        | inr (trace, stable) ↦
            let good = check_tree-Passes expect r trace (build_tree trace.observations) refl in
            rw stable (
              (λ h. (refl, (trace, (first trace).0 stable, good.0 h))),
              (λ h.
                  let same : h.1.0 ≡ trace = ground (arith, (first h.1.0).1 h.1.1) in
                  good.1 (subst (Passes expect r) same h.1.2)),
            )
      ])
    ]
