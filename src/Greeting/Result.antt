-- ===== src/Greeting/Result.antt =====
-- The current language always has a greeting, so the run ends with one.
use samples_python.Base.{
  Bool, true, Option, none, some, List, [], ◌∷◌, ◌≡◌, ◌≢◌, refl, sym, subst, inl, inr, arith,
  if◌then◌else◌, nat_eq, get, set_item, get-set_item, Bool-cases, Option-cases, ◌&&◌,
}
use samples_python.Base.Text.{Text}
use samples_python.Greeting.{
  Language, Outcome, waiting, returned, GreetingWorkflow, init, approve, set_language, acquire,
  set_language_using_activity, release, greeting_arrives, all_handlers_finished, run, Event,
  approves, sets, sets_using_activity, answers, condition_holds, turn, step_in, step, run_events,
}

-- What has been returned is a greeting, when no handler was under way.
unfoldable pub Spoken : Outcome → GreetingWorkflow → Type 0
Spoken waiting w = Unit {0}
Spoken (returned none) w = ⊥
Spoken (returned (some g)) w =
    (get w.language w.greetings ≡ some g) × (w.holder ≡ none) × (w.approved_for_release ≡ true)

-- Calls wait for the lock only while it is held.
abbrev Queued : Option Language → List Language → Type 0
Queued none languages = languages ≡ []
Queued (some language) languages = Unit {0}

unfoldable pub IsGreeting : GreetingWorkflow → Type 0
IsGreeting w = (get w.language w.greetings ≢ none) × Queued w.holder w.waiters × Spoken w.outcome w

set_language-IsGreeting :
    (l : Language) (w : GreetingWorkflow)
    → w.outcome ≡ waiting
    → IsGreeting w
    → IsGreeting (set_language l w)
unfolding set_language IsGreeting Spoken
set_language-IsGreeting l w o h = elim (Option-cases (get l w.greetings)) [
  | inl unknown ↦ rw unknown h
  | inr (g, known) ↦ rw (known, o) ((λ e. ground (arith, e, known)), h.1, tt)
]

acquire-IsGreeting :
    (l : Language) (w : GreetingWorkflow) (p : Option Language)
    → w.holder ≡ p
    → w.outcome ≡ waiting
    → IsGreeting w
    → IsGreeting (acquire p l w)
unfolding IsGreeting Spoken
acquire-IsGreeting l w none e o h = rw o (h.0, tt, tt)
acquire-IsGreeting l w (some k) e o h = rw (o, e) (h.0, tt, tt)

set_language_using_activity-IsGreeting :
    (l : Language) (w : GreetingWorkflow)
    → w.outcome ≡ waiting
    → IsGreeting w
    → IsGreeting (set_language_using_activity l w)
unfolding set_language_using_activity IsGreeting Spoken
set_language_using_activity-IsGreeting l w o h = elim (Option-cases (get l w.greetings)) [
  | inl unknown ↦ rw unknown (acquire-IsGreeting l w w.holder refl o h)
  | inr (g, known) ↦ rw (known, o) ((λ e. ground (arith, e, known)), h.1, tt)
]

release-IsGreeting :
    (w : GreetingWorkflow) (ls : List Language)
    → get w.language w.greetings ≢ none
    → w.outcome ≡ waiting
    → w.waiters ≡ ls
    → IsGreeting (release ls w)
unfolding IsGreeting Spoken
release-IsGreeting w [] h o e = rw o (h, e, tt)
release-IsGreeting w (l ∷ ls) h o e = rw o (h, tt, tt)

greeting_arrives-IsGreeting :
    (p : Option Language) (a : Option Text) (w : GreetingWorkflow)
    → w.outcome ≡ waiting
    → IsGreeting w
    → IsGreeting (greeting_arrives p a w)
unfolding greeting_arrives IsGreeting
greeting_arrives-IsGreeting none a w o h = h
greeting_arrives-IsGreeting (some l) none w o h = release-IsGreeting w w.waiters h.0 o refl
greeting_arrives-IsGreeting (some l) (some g) w o h =
    release-IsGreeting (record w { greetings = set_item l g w.greetings; language = l }) w.waiters
      (λ e. ground (arith, e, get-set_item l l g w.greetings, nat_eq.same_iff l l)) o refl

may_return :
    (w : GreetingWorkflow) (p : Option Language)
    → w.holder ≡ p
    → (w.approved_for_release && all_handlers_finished p) ≡ true
    → (w.holder ≡ none) × (w.approved_for_release ≡ true)
may_return w none e h = (e, ground (arith, h))
may_return w (some l) e h = ground (arith, h)

returned-Spoken :
    (w : GreetingWorkflow) (o : Option Text)
    → get w.language w.greetings ≡ o
    → o ≢ none
    → w.holder ≡ none
    → w.approved_for_release ≡ true
    → Spoken (returned o) w
unfolding Spoken
returned-Spoken w none e h n a = h refl
returned-Spoken w (some g) e h n a = (e, n, a)

run-IsGreeting : (w : GreetingWorkflow) → IsGreeting w → IsGreeting (run w)
unfolding run IsGreeting Spoken
run-IsGreeting w h = elim (Bool-cases (w.approved_for_release && all_handlers_finished w.holder)) [
  | inr may_not ↦ rw may_not h
  | inl may ↦
      let free = may_return w w.holder refl may in
      let spoken = returned-Spoken w (get w.language w.greetings) refl h.0 free.0 free.1 in
      subst
        (λ (b : Bool).
          IsGreeting
            (if b then record w { outcome = returned (get w.language w.greetings) } else w))
        (sym may) (h.0, h.1, go (get w.language w.greetings) spoken)
]
  where
    go :
        (o : Option Text)
        → Spoken (returned o) w
        → Spoken (returned o) (record w { outcome = returned (get w.language w.greetings) })
    go none k = k
    go (some g) k = k

approve-IsGreeting :
    (name : Text) (w : GreetingWorkflow)
    → w.outcome ≡ waiting
    → IsGreeting w
    → IsGreeting (approve name w)
unfolding approve IsGreeting Spoken
approve-IsGreeting name w o h = rw o (h.0, h.1, tt)

turn-IsGreeting :
    (w : GreetingWorkflow) (e : Event) → w.outcome ≡ waiting → IsGreeting w → IsGreeting (turn w e)
turn-IsGreeting w (approves name) o h = approve-IsGreeting name w o h
turn-IsGreeting w (sets l) o h = set_language-IsGreeting l w o h
turn-IsGreeting w (sets_using_activity l) o h = set_language_using_activity-IsGreeting l w o h
turn-IsGreeting w (answers a) o h = greeting_arrives-IsGreeting w.holder a w o h
turn-IsGreeting w condition_holds o h = run-IsGreeting w h

step_in-IsGreeting :
    (w : GreetingWorkflow) (o : Outcome) (e : Event)
    → w.outcome ≡ o
    → IsGreeting w
    → IsGreeting (step_in o w e)
step_in-IsGreeting w waiting e o h = turn-IsGreeting w e o h
step_in-IsGreeting w (returned g) e o h = h

run_events-IsGreeting :
    (w : GreetingWorkflow) (es : List Event) → IsGreeting w → IsGreeting (run_events w es)
unfolding run_events step
run_events-IsGreeting w [] h = h
run_events-IsGreeting w (e ∷ es) h =
    run_events-IsGreeting (step_in w.outcome w e) es (step_in-IsGreeting w w.outcome e refl h)

init-IsGreeting : (chinese english : Text) → IsGreeting (init chinese english)
unfolding init IsGreeting Spoken get
init-IsGreeting chinese english = ((λ e. ground (arith, e)), refl, tt)

-- From the beginning, whatever the updates, signals and answers of the activity: when the run has
-- ended it has returned the greeting of the language that is current then, never a KeyError; it was
-- approved, and no call of an update was under way or waited for the lock.
pub run_events-returned_greeting :
    (chinese english : Text) (es : List Event) (o : Option Text)
    → (run_events (init chinese english) es).outcome ≡ returned o
    → let w = run_events (init chinese english) es in
      (g : Text) × (o ≡ some g)
      × (get w.language w.greetings ≡ some g)
      × (w.approved_for_release ≡ true)
      × (w.holder ≡ none)
      × (w.waiters ≡ [])
unfolding IsGreeting Spoken
run_events-returned_greeting chinese english es o e =
    let w = run_events (init chinese english) es in
    let h = run_events-IsGreeting (init chinese english) es (init-IsGreeting chinese english) in
    go o (subst (λ (x : Outcome). Spoken x w) e h.2) h.1
  where
    go :
        (o : Option Text)
        → Spoken (returned o) (run_events (init chinese english) es)
        → (let w = run_events (init chinese english) es in Queued w.holder w.waiters)
        → let w = run_events (init chinese english) es in
          (g : Text) × (o ≡ some g)
          × (get w.language w.greetings ≡ some g)
          × (w.approved_for_release ≡ true)
          × (w.holder ≡ none)
          × (w.waiters ≡ [])
    go none k q = ground (arith, k)
    go (some g) k q = (
      g,
      refl,
      k.0,
      k.2,
      k.1,
      subst (λ (p : Option Language). Queued p (run_events (init chinese english) es).waiters) k.1
          q,
    )
