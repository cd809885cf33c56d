-- ===== src/Trace/Stable.antt =====
-- Which of the polls of a trace is taken.
use samples_python.Base.{
  ◌<◌, true, Option, none, some, List, [], ◌∷◌, length, ◌≡◌, ◌⊎◌, ◌↔◌, arith, inl, inr, Bool-cases,
}
use samples_python.Trace.{LangfuseTrace}
use samples_python.Trace.Check.{is_stable, poll_stable_trace}

-- The polls that found the trace.
unfoldable pub present : List (Option LangfuseTrace) → List LangfuseTrace
present [] = []
present (none ∷ polls) = present polls
present (some trace ∷ polls) = trace ∷ present polls

-- As many observations as the poll before, and at least one.
pub AsMany : (previous now : LangfuseTrace) → Type 0
AsMany previous now =
    (0 < length now.observations) × (length now.observations ≡ length previous.observations)

-- `trace` is the first of the traces that has as many observations as the one before it.
pub FirstStable : List LangfuseTrace → LangfuseTrace → Type 0
FirstStable [] trace = ⊥
FirstStable (p ∷ []) trace = ⊥
FirstStable (p ∷ q ∷ rest) trace =
    (AsMany p q × (q ≡ trace)) ⊎ (¬ (AsMany p q) × FirstStable (q ∷ rest) trace)

is_stable-AsMany :
    (p q : LangfuseTrace)
    → (is_stable (length q.observations) (some (length p.observations)) ≡ true) ↔ AsMany p q
unfolding AsMany
is_stable-AsMany p q = ground arith

poll-after :
    (p : LangfuseTrace) (polls : List (Option LangfuseTrace)) (trace : LangfuseTrace)
    → (poll_stable_trace (some (length p.observations)) polls ≡ some trace)
      ↔ FirstStable (p ∷ present polls) trace
unfolding poll_stable_trace FirstStable present
poll-after p [] trace = ground arith
poll-after p (none ∷ polls) trace = poll-after p polls trace
poll-after p (some q ∷ polls) trace =
    let later = poll-after q polls trace in
    let many = is_stable-AsMany p q in
    elim (Bool-cases (is_stable (length q.observations) (some (length p.observations)))) [
      | inl stable ↦ rw stable (ground (arith, many, stable))
      | inr not_yet ↦ rw not_yet (ground (arith, many, not_yet, later))
    ]

pub poll_stable_trace-FirstStable :
    (polls : List (Option LangfuseTrace)) (trace : LangfuseTrace)
    → (poll_stable_trace none polls ≡ some trace) ↔ FirstStable (present polls) trace
unfolding poll_stable_trace FirstStable present
poll_stable_trace-FirstStable [] trace = ground arith
poll_stable_trace-FirstStable (none ∷ polls) trace = poll_stable_trace-FirstStable polls trace
poll_stable_trace-FirstStable (some p ∷ polls) trace = poll-after p polls trace
