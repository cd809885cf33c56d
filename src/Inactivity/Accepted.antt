-- ===== src/Inactivity/Accepted.antt =====
-- What becomes of the prompts, event by event.
use mathlib.Core.List.{append-nil, append_assoc}
use samples_python.Base.{
  Bool, true, false, List, [], ◌∷◌, ◌++◌, if◌then◌else◌, ◌≡◌, refl, sym, ap, ◌∙◌, subst, inl, inr,
  arith, Bool-cases, some,
}
use samples_python.Base.Text.{Text}
use samples_python.Inactivity.{
  user, response, Phase, waiting, asking, summarizing, returned, failed, Chat, new_chat,
  user_prompt, is_nil, timed_out, woken, answered, broken, Event, prompted, answers, wakes,
  times_out, fails, step, run_events,
}
use samples_python.Inactivity.Turns.{
  prompts, added, accepted, after_turn, turn_after, InTurn, IsInTurn, asked, prompts-append,
  turn_after-append, next_prompt-asked, next_prompt-IsInTurn,
}

quiet :
    (b : Bool)
    → (added b wakes ≡ [])
      × (added b times_out ≡ [])
      × (added b fails ≡ [])
      × ((t : Text) → added b (answers t) ≡ [])
quiet true = (refl, refl, refl, λ t. refl)
quiet false = (refl, refl, refl, λ t. refl)

keeps_asked :
    (w d : Chat) (more : List Text) → asked d ≡ asked w → more ≡ [] → asked d ≡ asked w ++ more
keeps_asked w d more e n = e ∙ sym (append-nil (asked w)) ∙ ap (λ r. asked w ++ r) (sym n)

woken-asked : (m : Phase) (w : Chat) → asked (woken m w) ≡ asked w
woken-asked waiting w = next_prompt-asked w.prompt_queue w
woken-asked asking w = refl
woken-asked summarizing w = refl
woken-asked returned w = refl
woken-asked failed w = refl

timed_out-asked : (m : Phase) (w : Chat) → asked (timed_out m w) ≡ asked w
timed_out-asked waiting w = elim (Bool-cases (is_nil w.prompt_queue)) [
  | inl empty ↦ rw empty refl
  | inr more ↦ rw more refl
]
timed_out-asked asking w = refl
timed_out-asked summarizing w = refl
timed_out-asked returned w = refl
timed_out-asked failed w = refl

broken-asked : (m : Phase) (w : Chat) → asked (broken m w) ≡ asked w
broken-asked waiting w = refl
broken-asked asking w = refl
broken-asked summarizing w = refl
broken-asked returned w = refl
broken-asked failed w = refl

answered-asked : (t : Text) (m : Phase) (w : Chat) → asked (answered t m w) ≡ asked w
unfolding prompts
answered-asked t waiting w = refl
answered-asked t asking w =
    next_prompt-asked w.prompt_queue
      (record w { conversation_history = w.conversation_history ++ (response, t) ∷ [] })
    ∙ ap (λ p. p ++ w.prompt_queue)
        (prompts-append w.conversation_history ((response, t) ∷ [])
          ∙ append-nil (prompts w.conversation_history))
answered-asked t summarizing w = refl
answered-asked t returned w = refl
answered-asked t failed w = refl

step-asked : (w : Chat) (e : Event) → asked (step w e) ≡ asked w ++ added w.chat_timeout e
unfolding step user_prompt
step-asked w (prompted t) = elim (Bool-cases w.chat_timeout) [
  | inl closed ↦ rw closed (sym (append-nil (asked w)))
  | inr opened ↦
      rw opened (sym (append_assoc (prompts w.conversation_history) w.prompt_queue (t ∷ [])))
]
step-asked w (answers t) =
    keeps_asked w (answered t w.phase w) _ (answered-asked t w.phase w) ((quiet w.chat_timeout).3 t)
step-asked w wakes =
    keeps_asked w (woken w.phase w) _ (woken-asked w.phase w) (quiet w.chat_timeout).0
step-asked w times_out =
    keeps_asked w (timed_out w.phase w) _ (timed_out-asked w.phase w) (quiet w.chat_timeout).1
step-asked w fails =
    keeps_asked w (broken w.phase w) _ (broken-asked w.phase w) (quiet w.chat_timeout).2

answered-IsInTurn :
    (t : Text) (m : Phase) (w : Chat) → InTurn m w → IsInTurn w → IsInTurn (answered t m w)
unfolding IsInTurn
answered-IsInTurn t waiting w h k = k
answered-IsInTurn t asking w h k =
    next_prompt-IsInTurn w.prompt_queue
      (record w { conversation_history = w.conversation_history ++ (response, t) ∷ [] })
      (turn_after-append (some user) w.conversation_history response t
        ∙ ap (λ o. after_turn o response) h)
answered-IsInTurn t summarizing w h k = h
answered-IsInTurn t returned w h k = k
answered-IsInTurn t failed w h k = k

woken-IsInTurn : (m : Phase) (w : Chat) → InTurn m w → IsInTurn w → IsInTurn (woken m w)
woken-IsInTurn waiting w h k = next_prompt-IsInTurn w.prompt_queue w h
woken-IsInTurn asking w h k = k
woken-IsInTurn summarizing w h k = k
woken-IsInTurn returned w h k = k
woken-IsInTurn failed w h k = k

is_nil-nil : (ts : List Text) → is_nil ts ≡ true → ts ≡ []
is_nil-nil [] e = refl
is_nil-nil (t ∷ ts) e = ground (arith, e)

timed_out-IsInTurn : (m : Phase) (w : Chat) → InTurn m w → IsInTurn w → IsInTurn (timed_out m w)
unfolding IsInTurn
timed_out-IsInTurn waiting w h k = elim (Bool-cases (is_nil w.prompt_queue)) [
  | inl empty ↦ rw empty (h, is_nil-nil w.prompt_queue empty, refl)
  | inr more ↦ rw more k
]
timed_out-IsInTurn asking w h k = k
timed_out-IsInTurn summarizing w h k = k
timed_out-IsInTurn returned w h k = k
timed_out-IsInTurn failed w h k = k

broken-IsInTurn : (m : Phase) (w : Chat) → InTurn m w → IsInTurn w → IsInTurn (broken m w)
unfolding IsInTurn
broken-IsInTurn waiting w h k = k
broken-IsInTurn asking w h k = tt
broken-IsInTurn summarizing w h k = tt
broken-IsInTurn returned w h k = k
broken-IsInTurn failed w h k = k

user_prompt-InTurn :
    (t : Text) (m : Phase) (w : Chat) (b : Bool)
    → w.chat_timeout ≡ b
    → InTurn m w
    → InTurn m (if b then w else record w { prompt_queue = w.prompt_queue ++ t ∷ [] })
user_prompt-InTurn t m w true e h = h
user_prompt-InTurn t waiting w false e h = h
user_prompt-InTurn t asking w false e h = h
user_prompt-InTurn t summarizing w false e h = ground (arith, e, h.2)
user_prompt-InTurn t returned w false e h = ground (arith, e, h.2)
user_prompt-InTurn t failed w false e h = tt

user_prompt-IsInTurn : (t : Text) (w : Chat) → IsInTurn w → IsInTurn (user_prompt t w)
unfolding user_prompt IsInTurn
user_prompt-IsInTurn t w k = elim (Bool-cases w.chat_timeout) [
  | inl closed ↦
      subst (λ b. IsInTurn (if b then w else record w { prompt_queue = w.prompt_queue ++ t ∷ [] }))
        (sym closed) k
  | inr opened ↦
      subst (λ b. IsInTurn (if b then w else record w { prompt_queue = w.prompt_queue ++ t ∷ [] }))
        (sym opened) (user_prompt-InTurn t w.phase w false opened k)
]

step-IsInTurn : (w : Chat) (e : Event) → IsInTurn w → IsInTurn (step w e)
unfolding step IsInTurn
step-IsInTurn w (prompted t) k = user_prompt-IsInTurn t w k
step-IsInTurn w (answers t) k = answered-IsInTurn t w.phase w k k
step-IsInTurn w wakes k = woken-IsInTurn w.phase w k k
step-IsInTurn w times_out k = timed_out-IsInTurn w.phase w k k
step-IsInTurn w fails k = broken-IsInTurn w.phase w k k

run_events-kept :
    (w : Chat) (es : List Event)
    → IsInTurn w
    → (asked (run_events w es) ≡ asked w ++ accepted w es) × IsInTurn (run_events w es)
unfolding run_events accepted
run_events-kept w [] k = (sym (append-nil (asked w)), k)
run_events-kept w (e ∷ es) k =
    let rest = run_events-kept (step w e) es (step-IsInTurn w e k) in
    (
      rest.0
          ∙ ap (λ r. r ++ accepted (step w e) es) (step-asked w e)
          ∙ append_assoc (asked w) (added w.chat_timeout e) (accepted (step w e) es),
      rest.1,
    )

-- After any events, the prompts in the history, followed by those in the queue, are exactly the
-- prompts that came before the chat was closed, in their order. Unless an activity has failed,
-- prompts and answers alternate, from a prompt on, with an answer due exactly while the activity of
-- a prompt is under way; and a chat that is closed has an empty queue.
pub run_events-accepted :
    (es : List Event)
    → let w = run_events new_chat es in
      (prompts w.conversation_history ++ w.prompt_queue ≡ accepted new_chat es) × InTurn w.phase w
unfolding IsInTurn new_chat prompts turn_after
run_events-accepted es = run_events-kept new_chat es refl
