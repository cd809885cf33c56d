-- ===== src/Versioning/Lockstep.antt =====
-- A version that only changes its activities keeps step with the one before it.
use samples_python.Base.{
  Bool, true, false, List, [], ◌∷◌, ◌++◌, map, ◌≡◌, refl, sym, ◌∙◌, ap, inl, inr, ◌==◌, Bool-cases,
}
use samples_python.Base.Text.{Text, text, text_eq}
use samples_python.Versioning.{
  Activity, some_activity, some_incompatible_activity, Phase, opening, waiting, acting, concluding,
  completed, Workflow, execute_activity, new_workflow, Definition, auto_upgrading_v1,
  auto_upgrading_v1b, take_signal, wakes, activity_ends, Event, signalled, proceeds, activity_done,
  step, run_events,
}

-- A run with each activity renamed.
abbrev pub renamed : (Activity → Activity) → Workflow → Workflow
renamed f w = record w { started = map f w.started }

map-append :
    (f : Activity → Activity) (xs ys : List Activity) → map f (xs ++ ys) ≡ map f xs ++ map f ys
map-append f [] ys = refl
map-append f (x ∷ xs) ys = ap (λ (zs : List Activity). f x ∷ zs) (map-append f xs ys)

execute_activity-renamed :
    (f : Activity → Activity) (a : Activity) (p : Phase) (w : Workflow)
    → execute_activity (f a) p (renamed f w) ≡ renamed f (execute_activity a p w)
execute_activity-renamed f a p w =
    ap (λ (s : List Activity). record { signals = w.signals; phase = p; started = s })
      (sym (map-append f w.started (a ∷ [])))

-- `e` does with a signal what `d` does, up to the names of activities.
abbrev pub KeepsStep : (Activity → Activity) → Definition → Definition → Type 0
KeepsStep f d e =
    (signal : Text) (w : Workflow)
    → e.on_signal signal (renamed f w) ≡ renamed f (d.on_signal signal w)

module _ (f : Activity → Activity) (d e : Definition) (keeps : KeepsStep f d e) where
  wakes-renamed : (p : Phase) (w : Workflow) → wakes e p (renamed f w) ≡ renamed f (wakes d p w)
  unfolding wakes
  wakes-renamed waiting w = go w.signals
    where
      go : (s : List Text) → take_signal e s (renamed f w) ≡ renamed f (take_signal d s w)
      go [] = unfold take_signal in refl
      go (signal ∷ signals) = unfold take_signal in keeps signal (record w { signals = signals })
  wakes-renamed opening w = refl
  wakes-renamed acting w = refl
  wakes-renamed concluding w = refl
  wakes-renamed completed w = refl

  activity_ends-renamed :
      (p : Phase) (w : Workflow) → activity_ends p (renamed f w) ≡ renamed f (activity_ends p w)
  unfolding activity_ends
  activity_ends-renamed opening w = refl
  activity_ends-renamed waiting w = refl
  activity_ends-renamed acting w = refl
  activity_ends-renamed concluding w = refl
  activity_ends-renamed completed w = refl

  step-renamed : (w : Workflow) (x : Event) → step e (renamed f w) x ≡ renamed f (step d w x)
  unfolding step
  step-renamed w (signalled signal) = refl
  step-renamed w proceeds = wakes-renamed w.phase w
  step-renamed w activity_done = activity_ends-renamed w.phase w

  run_events-renamed :
      (w : Workflow) (xs : List Event)
      → run_events e (renamed f w) xs ≡ renamed f (run_events d w xs)
  unfolding run_events
  run_events-renamed w [] = refl
  run_events-renamed w (x ∷ xs) =
      ap (λ (u : Workflow). run_events e u xs) (step-renamed w x)
      ∙ run_events-renamed (step d w x) xs

-- The activity of the new version in place of the old.
abbrev pub upgraded : (patched : Bool) → Activity → Activity
upgraded true (some_activity called_by) = some_incompatible_activity (text "v1b") (text "hello!")
upgraded false (some_activity called_by) = some_activity (text "v1b")
upgraded patched (some_incompatible_activity called_by more_data) =
    some_incompatible_activity called_by more_data

auto_upgrading-KeepsStep :
    (patched : Bool) → KeepsStep (upgraded patched) auto_upgrading_v1 (auto_upgrading_v1b patched)
unfolding auto_upgrading_v1 auto_upgrading_v1b
auto_upgrading-KeepsStep true = λ signal w. elim (Bool-cases (signal == text "do-activity")) [
  | inl act ↦ rw act (execute_activity-renamed (upgraded true) (some_activity (text "v1")) acting w)
  | inr conclude ↦ rw conclude refl
]
auto_upgrading-KeepsStep false = λ signal w. elim (Bool-cases (signal == text "do-activity")) [
  | inl act ↦
      rw act (execute_activity-renamed (upgraded false) (some_activity (text "v1")) acting w)
  | inr conclude ↦ rw conclude refl
]

-- The change from version 1 to version 1b is compatible: over any signals, wake-ups and ends of
-- activities, both take the same signals, stand at the same place and start as many activities, in
-- the same order; version 1b runs its own activity where version 1 runs its own, whichever branch
-- of the patch it is in.
pub auto_upgrading_v1-auto_upgrading_v1b :
    (patched : Bool) (es : List Event)
    → run_events (auto_upgrading_v1b patched) (auto_upgrading_v1b patched).first es
      ≡ renamed (upgraded patched) (run_events auto_upgrading_v1 auto_upgrading_v1.first es)
unfolding auto_upgrading_v1 auto_upgrading_v1b
auto_upgrading_v1-auto_upgrading_v1b patched es =
    run_events-renamed (upgraded patched) auto_upgrading_v1 (auto_upgrading_v1b patched)
      (auto_upgrading-KeepsStep patched) new_workflow es
