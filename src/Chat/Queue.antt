-- ===== src/Chat/Queue.antt =====
-- Prompts are answered in the order in which they were accepted, also across runs.
use samples_python.Base.{
  Bool, true, false, Option, none, some, List, [], ◌∷◌, ◌++◌, ◌≡◌, refl, sym, ◌∙◌, ap, inl, inr,
  if◌then◌else◌, ltb, length, Bool-cases,
}
use mathlib.Core.List.{append-nil, append_assoc}
use samples_python.Base.Text.{Text}
use samples_python.Chat.{
  init, BedrockParams, History, Speaker, conversation_summary, user, response, Phase, waiting,
  prompting, continuing, ending, failed, completed, continued_as_new, EntityBedrockWorkflow, run,
  with_summary, user_prompt, end_chat, after_wait, on_answer, wake, fail, is_open, turn, Event,
  Signal, prompted, ended, signals, receive, receive_all, begin, wakes, fails, answers, step,
  run_events,
}

-- The prompts in a history.
abbrev pub prompts : History → List Text
prompts [] = []
prompts ((user, s) ∷ h) = s ∷ prompts h
prompts ((conversation_summary, s) ∷ h) = prompts h
prompts ((response, s) ∷ h) = prompts h

prompts-append : (h k : History) → prompts (h ++ k) ≡ prompts h ++ prompts k
prompts-append [] k = refl
prompts-append ((user, s) ∷ h) k = ap (λ (t : List Text). s ∷ t) (prompts-append h k)
prompts-append ((conversation_summary, s) ∷ h) k = prompts-append h k
prompts-append ((response, s) ∷ h) k = prompts-append h k

-- The prompt that a signal adds to the queue of an open run.
abbrev pub taken : EntityBedrockWorkflow → Signal → List Text
taken w (prompted p) = if w.chat_ended then [] else p ∷ []
taken w ended = []

abbrev pub accepted_one : EntityBedrockWorkflow → Event → List Text
accepted_one w (signals s) = if is_open w.phase then taken w s else []
accepted_one w _ = []

-- The prompts that a sequence of events adds to the queue of a run.
abbrev pub accepted : EntityBedrockWorkflow → List Event → List Text
accepted w [] = []
accepted w (e ∷ es) = accepted_one w e ++ accepted (step w e) es

-- What a run was asked, answered or not.
abbrev pub asked : EntityBedrockWorkflow → List Text
asked w = prompts w.conversation_history ++ w.prompt_queue

prompts_none :
    (h : History) (sp : Speaker) (s : Text) → prompts (h ++ (response, s) ∷ []) ≡ prompts h
prompts_none h sp s = prompts-append h ((response, s) ∷ []) ∙ append-nil (prompts h)

after_wait-asked :
    (w : EntityBedrockWorkflow) (q : List Text)
    → w.prompt_queue ≡ q
    → asked (after_wait q w) ≡ asked w
unfolding after_wait
after_wait-asked w (p ∷ q) e =
    ap (λ (l : List Text). l ++ q) (prompts-append w.conversation_history ((user, p) ∷ []))
    ∙ append_assoc (prompts w.conversation_history) (p ∷ []) q
    ∙ ap (λ (l : List Text). prompts w.conversation_history ++ l) (sym e)
after_wait-asked w [] e = elim (Bool-cases w.chat_ended) [
  | inr going ↦ rw going refl
  | inl over ↦ elim (Bool-cases (ltb 1 (length w.conversation_history))) [
    | inl talk ↦ rw (over, talk) refl
    | inr no_talk ↦ rw (over, no_talk) refl
  ]
]

wake-asked : (w : EntityBedrockWorkflow) (p : Phase) → asked (wake p w) ≡ asked w
unfolding wake
wake-asked w waiting = after_wait-asked w w.prompt_queue refl
wake-asked w (prompting r) = refl
wake-asked w (continuing r) = refl
wake-asked w (ending r) = refl
wake-asked w failed = refl
wake-asked w completed = refl
wake-asked w (continued_as_new params) = refl

on_answer-asked :
    (w : EntityBedrockWorkflow) (p : Phase) (s : Text) → asked (on_answer p s w) ≡ asked w
unfolding on_answer
on_answer-asked w waiting s = refl
on_answer-asked w (prompting r) s =
    ap (λ (l : List Text). l ++ w.prompt_queue) (prompts_none w.conversation_history response s)
on_answer-asked w (continuing r) s = refl
on_answer-asked w (ending r) s = refl
on_answer-asked w failed s = refl
on_answer-asked w completed s = refl
on_answer-asked w (continued_as_new params) s = refl

fail-asked : (w : EntityBedrockWorkflow) (p : Phase) → asked (fail p w) ≡ asked w
unfolding fail
fail-asked w waiting = refl
fail-asked w (prompting r) = refl
fail-asked w (continuing r) = refl
fail-asked w (ending r) = refl
fail-asked w failed = refl
fail-asked w completed = refl
fail-asked w (continued_as_new params) = refl

user_prompt-asked :
    (w : EntityBedrockWorkflow) (p : Text)
    → asked (user_prompt w p) ≡ asked w ++ (if w.chat_ended then [] else p ∷ [])
unfolding user_prompt
user_prompt-asked w p = elim (Bool-cases w.chat_ended) [
  | inl over ↦ rw over (sym (append-nil (asked w)))
  | inr going ↦
      rw going (sym (append_assoc (prompts w.conversation_history) w.prompt_queue (p ∷ [])))
]

receive-asked :
    (w : EntityBedrockWorkflow) (s : Signal) → asked (receive w s) ≡ asked w ++ taken w s
unfolding receive end_chat
receive-asked w (prompted p) = user_prompt-asked w p
receive-asked w ended = sym (append-nil (asked w))

-- The prompts that signals add to the queue before the run begins.
abbrev pub accepted_early : EntityBedrockWorkflow → List Signal → List Text
accepted_early w [] = []
accepted_early w (s ∷ ss) = taken w s ++ accepted_early (receive w s) ss

receive_all-asked :
    (w : EntityBedrockWorkflow) (ss : List Signal)
    → asked (receive_all w ss) ≡ asked w ++ accepted_early w ss
unfolding receive_all
receive_all-asked w [] = sym (append-nil (asked w))
receive_all-asked w (s ∷ ss) =
    receive_all-asked (receive w s) ss
    ∙ ap (λ (l : List Text). l ++ accepted_early (receive w s) ss) (receive-asked w s)
    ∙ append_assoc (asked w) (taken w s) (accepted_early (receive w s) ss)

receive-history :
    (w : EntityBedrockWorkflow) (s : Signal)
    → ((receive w s).conversation_history ≡ w.conversation_history)
      × ((receive w s).phase ≡ w.phase)
unfolding receive user_prompt end_chat
receive-history w (prompted p) = elim (Bool-cases w.chat_ended) [
  | inl over ↦ rw over (refl, refl)
  | inr going ↦ rw going (refl, refl)
]
receive-history w ended = (refl, refl)

-- Signals touch neither the history nor the place of the run.
pub receive_all-history :
    (w : EntityBedrockWorkflow) (ss : List Signal)
    → ((receive_all w ss).conversation_history ≡ w.conversation_history)
      × ((receive_all w ss).phase ≡ w.phase)
unfolding receive_all
receive_all-history w [] = (refl, refl)
receive_all-history w (s ∷ ss) =
    let (h, p) = receive_all-history (receive w s) ss in
    let (h', p') = receive-history w s in (h ∙ h', p ∙ p')

turn-asked :
    (w : EntityBedrockWorkflow) (e : Event)
    → is_open w.phase ≡ true
    → asked (turn w e) ≡ asked w ++ accepted_one w e
unfolding turn
turn-asked w (signals s) is_on = rw is_on (receive-asked w s)
turn-asked w wakes is_on = wake-asked w w.phase ∙ sym (append-nil (asked w))
turn-asked w fails is_on = fail-asked w w.phase ∙ sym (append-nil (asked w))
turn-asked w (answers s) is_on = on_answer-asked w w.phase s ∙ sym (append-nil (asked w))

step-asked :
    (w : EntityBedrockWorkflow) (e : Event) → asked (step w e) ≡ asked w ++ accepted_one w e
unfolding step
step-asked w e = go (is_open w.phase) refl
  where
    none_taken : (e : Event) → is_open w.phase ≡ false → accepted_one w e ≡ []
    none_taken (signals s) closed = ap (λ b. if b then taken w s else []) closed
    none_taken wakes closed = refl
    none_taken fails closed = refl
    none_taken (answers s) closed = refl

    go :
        (b : Bool)
        → is_open w.phase ≡ b
        → asked (if b then turn w e else w) ≡ asked w ++ accepted_one w e
    go true opened = turn-asked w e opened
    go false closed =
        sym (append-nil (asked w))
        ∙ ap (λ (l : List Text). asked w ++ l) (sym (none_taken e closed))

-- The prompts of a run's history and its queue are, in this order, those that it began with and
-- those that it accepted, whatever the events. A prompt is accepted unless the chat has ended or
-- the run has.
pub run_events-asked :
    (w : EntityBedrockWorkflow) (es : List Event)
    → asked (run_events w es) ≡ asked w ++ accepted w es
unfolding run_events
run_events-asked w [] = sym (append-nil (asked w))
run_events-asked w (e ∷ es) =
    run_events-asked (step w e) es
    ∙ ap (λ (l : List Text). l ++ accepted (step w e) es) (step-asked w e)
    ∙ append_assoc (asked w) (accepted_one w e) (accepted (step w e) es)

begin-asked :
    (params : BedrockParams) (w : EntityBedrockWorkflow)
    → asked (begin params w) ≡ asked w ++ params.prompt_queue
unfolding begin with_summary
begin-asked params w = go params.conversation_summary
  where
    longer :
        prompts w.conversation_history ++ (w.prompt_queue ++ params.prompt_queue)
        ≡ asked w ++ params.prompt_queue
    longer = sym (append_assoc (prompts w.conversation_history) w.prompt_queue params.prompt_queue)

    go :
        (o : Option Text)
        → prompts (with_summary o w).conversation_history
            ++ ((with_summary o w).prompt_queue ++ params.prompt_queue)
          ≡ asked w ++ params.prompt_queue
    go none = longer
    go (some []) = longer
    go (some (c ∷ cs)) =
        ap (λ (l : List Text). l ++ (w.prompt_queue ++ params.prompt_queue))
          (prompts-append w.conversation_history ((conversation_summary, c ∷ cs) ∷ [])
            ∙ append-nil (prompts w.conversation_history))
        ∙ longer

pub run-asked :
    (params : BedrockParams) (early : List Signal)
    → asked (run params early) ≡ accepted_early init early ++ params.prompt_queue
unfolding run
run-asked params early =
    begin-asked params (receive_all init early)
    ∙ ap (λ (l : List Text). l ++ params.prompt_queue) (receive_all-asked init early)
