-- ===== src/Chat/Ended.antt =====
-- What is left in the queue when a run ends.
use samples_python.Base.{
  true, false, Option, none, some, List, [], ◌∷◌, ◌++◌, ◌≡◌, refl, inl, inr, arith, ltb, length,
  Bool-cases,
}
use samples_python.Base.Text.{Text}
use samples_python.Chat.{
  init, continue_as_new_per_turns, BedrockParams, response, Phase, waiting, prompting, continuing,
  ending, failed, completed, continued_as_new, EntityBedrockWorkflow, run, with_summary,
  user_prompt, end_chat, after_wait, on_answer, wake, fail, is_open, turn, Event, Signal, prompted,
  ended, signals, receive, receive_all, begin, wakes, fails, answers, step, run_events,
}
use samples_python.Chat.Queue.{receive_all-history}

-- When a chat completes, or the run continues as new: what is left in the queue.
abbrev pub Ended : EntityBedrockWorkflow → Phase → Type 0
Ended w (ending r) = (w.chat_ended ≡ true) × (w.prompt_queue ≡ [])
Ended w completed = (w.chat_ended ≡ true) × (w.prompt_queue ≡ [])
Ended w (continued_as_new params) = params.prompt_queue ≡ w.prompt_queue
Ended w _ = Unit {0}

abbrev pub IsEnded : EntityBedrockWorkflow → Type 0
IsEnded w = Ended w w.phase

after_wait-IsEnded :
    (w : EntityBedrockWorkflow) (q : List Text)
    → w.prompt_queue ≡ q
    → w.phase ≡ waiting
    → IsEnded (after_wait q w)
unfolding after_wait
after_wait-IsEnded w (p ∷ q) e h = tt
after_wait-IsEnded w [] e h = elim (Bool-cases w.chat_ended) [
  | inr going ↦ rw (going, h) tt
  | inl over ↦ elim (Bool-cases (ltb 1 (length w.conversation_history))) [
    | inl talk ↦ rw (over, talk) (refl, e)
    | inr no_talk ↦ rw (over, no_talk) (refl, e)
  ]
]

user_prompt-IsEnded :
    (w : EntityBedrockWorkflow) (q : Text) (p : Phase)
    → w.phase ≡ p
    → is_open p ≡ true
    → Ended w p
    → IsEnded (user_prompt w q)
unfolding user_prompt
user_prompt-IsEnded w q p e is_on h = elim (Bool-cases w.chat_ended) [
  | inl over ↦ rw (over, e) (go_over p h)
  | inr going ↦ rw (going, e) (go p is_on going h)
]
  where
    go_over : (p : Phase) → Ended w p → Ended (record w { phase = p; chat_ended = true }) p
    go_over (ending r) h = (refl, h.1)
    go_over completed h = (refl, h.1)
    go_over (continued_as_new params) h = h
    go_over waiting h = tt
    go_over failed h = tt
    go_over (prompting r) h = tt
    go_over (continuing r) h = tt

    go :
        (p : Phase)
        → is_open p ≡ true
        → w.chat_ended ≡ false
        → Ended w p
        → Ended
            (record w { phase = p; chat_ended = false; prompt_queue = w.prompt_queue ++ q ∷ [] })
            p
    go waiting is_on going h = tt
    go (prompting r) is_on going h = tt
    go (continuing r) is_on going h = tt
    go (ending r) is_on going h = ground (arith, h.0, going)
    go failed is_on going h = tt
    go completed is_on going h = ground (arith, is_on)
    go (continued_as_new params) is_on going h = ground (arith, is_on)

end_chat-IsEnded :
    (w : EntityBedrockWorkflow) (p : Phase) → w.phase ≡ p → Ended w p → IsEnded (end_chat w)
unfolding end_chat
end_chat-IsEnded w waiting e h = rw e tt
end_chat-IsEnded w (prompting r) e h = rw e tt
end_chat-IsEnded w (continuing r) e h = rw e tt
end_chat-IsEnded w (ending r) e h = rw e (refl, h.1)
end_chat-IsEnded w failed e h = rw e tt
end_chat-IsEnded w completed e h = rw e (refl, h.1)
end_chat-IsEnded w (continued_as_new params) e h = rw e h

wake-IsEnded :
    (w : EntityBedrockWorkflow) (p : Phase) → w.phase ≡ p → Ended w p → IsEnded (wake p w)
unfolding wake
wake-IsEnded w waiting e h = after_wait-IsEnded w w.prompt_queue refl e
wake-IsEnded w (prompting r) e h = rw e tt
wake-IsEnded w (continuing r) e h = rw e tt
wake-IsEnded w (ending r) e h = rw e h
wake-IsEnded w failed e h = rw e tt
wake-IsEnded w completed e h = rw e h
wake-IsEnded w (continued_as_new params) e h = rw e h

on_answer-IsEnded :
    (w : EntityBedrockWorkflow) (p : Phase) (s : Text)
    → w.phase ≡ p
    → Ended w p
    → IsEnded (on_answer p s w)
unfolding on_answer
on_answer-IsEnded w waiting s e h = rw e tt
on_answer-IsEnded w (prompting r) s e h =
    elim (Bool-cases
      (ltb (length (w.conversation_history ++ (response, s) ∷ [])) continue_as_new_per_turns)) [
        | inl short ↦ rw short tt
        | inr long ↦ rw long tt
      ]
on_answer-IsEnded w (continuing r) s e h = refl
on_answer-IsEnded w (ending r) s e h = h
on_answer-IsEnded w failed s e h = rw e tt
on_answer-IsEnded w completed s e h = rw e h
on_answer-IsEnded w (continued_as_new params) s e h = rw e h

fail-IsEnded :
    (w : EntityBedrockWorkflow) (p : Phase) → w.phase ≡ p → Ended w p → IsEnded (fail p w)
unfolding fail
fail-IsEnded w waiting e h = rw e tt
fail-IsEnded w (prompting r) e h = tt
fail-IsEnded w (continuing r) e h = tt
fail-IsEnded w (ending r) e h = tt
fail-IsEnded w failed e h = rw e tt
fail-IsEnded w completed e h = rw e h
fail-IsEnded w (continued_as_new params) e h = rw e h

turn-IsEnded :
    (w : EntityBedrockWorkflow) (e : Event)
    → is_open w.phase ≡ true
    → IsEnded w
    → IsEnded (turn w e)
unfolding turn receive
turn-IsEnded w (signals (prompted p)) is_on h = user_prompt-IsEnded w p w.phase refl is_on h
turn-IsEnded w (signals ended) is_on h = end_chat-IsEnded w w.phase refl h
turn-IsEnded w wakes is_on h = wake-IsEnded w w.phase refl h
turn-IsEnded w fails is_on h = fail-IsEnded w w.phase refl h
turn-IsEnded w (answers s) is_on h = on_answer-IsEnded w w.phase s refl h

step-IsEnded : (w : EntityBedrockWorkflow) (e : Event) → IsEnded w → IsEnded (step w e)
unfolding step
step-IsEnded w e h = elim (Bool-cases (is_open w.phase)) [
  | inr closed ↦ rw closed h
  | inl opened ↦ rw opened (turn-IsEnded w e opened h)
]

pub run_events-IsEnded :
    (w : EntityBedrockWorkflow) (es : List Event) → IsEnded w → IsEnded (run_events w es)
unfolding run_events
run_events-IsEnded w [] h = h
run_events-IsEnded w (e ∷ es) h = run_events-IsEnded (step w e) es (step-IsEnded w e h)

pub run-IsEnded : (params : BedrockParams) (early : List Signal) → IsEnded (run params early)
unfolding run begin with_summary
run-IsEnded params early =
    go params.conversation_summary (receive_all init early) (receive_all-history init early).1
  where
    go :
        (o : Option Text) (w : EntityBedrockWorkflow)
        → w.phase ≡ waiting
        → let s = with_summary o w in
          IsEnded (record s { prompt_queue = s.prompt_queue ++ params.prompt_queue })
    go none w p = rw p tt
    go (some []) w p = rw p tt
    go (some (c ∷ cs)) w p = rw p tt
