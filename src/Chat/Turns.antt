-- ===== src/Chat/Turns.antt =====
-- The history alternates between prompts and answers, and stays short.
use samples_python.Base.{
  Bool, true, false, Option, none, some, List, [], ◌∷◌, ◌++◌, ◌≡◌, length-append, refl, ◌∙◌, ap,
  subst, inl, inr, arith, ◌+◌, ◌<◌, ◌≤◌, ltb, length, Bool-cases,
}
use samples_python.Base.Text.{Text}
use samples_python.Chat.Queue.{receive_all-history}
use samples_python.Chat.{
  init, continue_as_new_per_turns, BedrockParams, History, Speaker, conversation_summary, user,
  response, Phase, waiting, prompting, continuing, ending, failed, completed, continued_as_new,
  EntityBedrockWorkflow, run, with_summary, user_prompt, end_chat, after_wait, on_answer, wake,
  fail, is_open, turn, Event, Signal, prompted, ended, signals, receive, receive_all, begin, wakes,
  fails, answers, step, run_events,
}

-- Whether a prompt waits for its answer after a history that alternates, `none` if it does not.
abbrev then_speaks : Option Bool → Speaker → Option Bool
then_speaks (some false) user = some true
then_speaks (some true) response = some false
then_speaks _ _ = none

unfoldable pub alternates : Option Bool → History → Option Bool
alternates b [] = b
alternates b ((speaker, s) ∷ h) = alternates (then_speaks b speaker) h

-- A summary stands at most at the beginning.
unfoldable pub without_summary : History → History
without_summary [] = []
without_summary ((conversation_summary, s) ∷ h) = h
without_summary ((user, s) ∷ h) = (user, s) ∷ h
without_summary ((response, s) ∷ h) = (response, s) ∷ h

-- The history fits the place where the run is.
unfoldable pub InTurn : Phase → History → Type 0
InTurn waiting h =
    (alternates (some false) (without_summary h) ≡ some false)
    × (length h < continue_as_new_per_turns)
InTurn (prompting r) h =
    (alternates (some false) (without_summary h) ≡ some true)
    × (length h ≤ continue_as_new_per_turns)
InTurn (continuing r) h =
    (alternates (some false) (without_summary h) ≡ some false)
    × (length h ≤ continue_as_new_per_turns + 1)
InTurn (continued_as_new r) h =
    (alternates (some false) (without_summary h) ≡ some false)
    × (length h ≤ continue_as_new_per_turns + 1)
InTurn (ending r) h =
    (alternates (some false) (without_summary h) ≡ some false)
    × (length h < continue_as_new_per_turns)
InTurn completed h =
    (alternates (some false) (without_summary h) ≡ some false)
    × (length h < continue_as_new_per_turns)
InTurn failed h = length h ≤ continue_as_new_per_turns + 1

unfoldable pub IsInTurn : EntityBedrockWorkflow → Type 0
IsInTurn w = InTurn w.phase w.conversation_history

alternates-append :
    (h : History) (o : Option Bool) (sp : Speaker) (s : Text)
    → alternates o (h ++ (sp, s) ∷ []) ≡ then_speaks (alternates o h) sp
unfolding alternates
alternates-append [] o sp s = refl
alternates-append ((sp', s') ∷ h) o sp s = alternates-append h (then_speaks o sp') sp s

without_summary_append :
    (h : History) (sp : Speaker) (s : Text) (b c : Bool)
    → alternates (some false) (without_summary h) ≡ some b
    → then_speaks (some b) sp ≡ some c
    → alternates (some false) (without_summary (h ++ (sp, s) ∷ [])) ≡ some c
unfolding without_summary alternates
without_summary_append [] conversation_summary s true c e k = ground (arith, k)
without_summary_append [] conversation_summary s false c e k = ground (arith, k)
without_summary_append [] user s b c e k = ap (λ o. then_speaks o user) e ∙ k
without_summary_append [] response s b c e k = ap (λ o. then_speaks o response) e ∙ k
without_summary_append ((conversation_summary, s') ∷ h) sp s b c e k =
    alternates-append h (some false) sp s ∙ ap (λ o. then_speaks o sp) e ∙ k
without_summary_append ((user, s') ∷ h) sp s b c e k =
    alternates-append h (some true) sp s ∙ ap (λ o. then_speaks o sp) e ∙ k
without_summary_append ((response, s') ∷ h) sp s b c e k =
    alternates-append h none sp s ∙ ap (λ o. then_speaks o sp) e ∙ k

after_wait-IsInTurn :
    (w : EntityBedrockWorkflow) (q : List Text)
    → w.phase ≡ waiting
    → IsInTurn w
    → IsInTurn (after_wait q w)
unfolding after_wait IsInTurn InTurn
after_wait-IsInTurn w (p ∷ q) e h =
    let turn = subst (λ ph. InTurn ph w.conversation_history) e h in
    (
      without_summary_append w.conversation_history user p false true turn.0 refl,
      ground (arith, turn.1, length-append w.conversation_history ((user, p) ∷ [])),
    )
after_wait-IsInTurn w [] e h =
    let turn = subst (λ ph. InTurn ph w.conversation_history) e h in
    elim (Bool-cases w.chat_ended) [
      | inr going ↦ rw (going, e) turn
      | inl over ↦ elim (Bool-cases (ltb 1 (length w.conversation_history))) [
        | inl talk ↦ rw (over, talk) turn
        | inr no_talk ↦ rw (over, no_talk) turn
      ]
    ]

wake-IsInTurn :
    (w : EntityBedrockWorkflow) (p : Phase) → w.phase ≡ p → IsInTurn w → IsInTurn (wake p w)
unfolding wake
wake-IsInTurn w waiting e h = after_wait-IsInTurn w w.prompt_queue e h
wake-IsInTurn w (prompting r) e h = h
wake-IsInTurn w (continuing r) e h = h
wake-IsInTurn w (ending r) e h = h
wake-IsInTurn w failed e h = h
wake-IsInTurn w completed e h = h
wake-IsInTurn w (continued_as_new params) e h = h

answered-IsInTurn :
    (w : EntityBedrockWorkflow) (r s : Text)
    → InTurn (prompting r) w.conversation_history
    → IsInTurn (on_answer (prompting r) s w)
unfolding on_answer IsInTurn InTurn
answered-IsInTurn w r s h =
    let longer = w.conversation_history ++ (response, s) ∷ [] in
    let told = without_summary_append w.conversation_history response s true false h.0 refl in
    let size = length-append w.conversation_history ((response, s) ∷ []) in
    elim (Bool-cases (ltb (length longer) continue_as_new_per_turns)) [
      | inl short ↦ rw short (told, ground (arith, short))
      | inr long ↦ rw long (told, ground (arith, h.1, size))
    ]

on_answer-IsInTurn :
    (w : EntityBedrockWorkflow) (p : Phase) (s : Text)
    → w.phase ≡ p
    → IsInTurn w
    → IsInTurn (on_answer p s w)
unfolding on_answer IsInTurn InTurn
on_answer-IsInTurn w waiting s e h = h
on_answer-IsInTurn w (prompting r) s e h =
    answered-IsInTurn w r s (subst (λ ph. InTurn ph w.conversation_history) e h)
on_answer-IsInTurn w (continuing r) s e h = subst (λ ph. InTurn ph w.conversation_history) e h
on_answer-IsInTurn w (ending r) s e h = subst (λ ph. InTurn ph w.conversation_history) e h
on_answer-IsInTurn w failed s e h = h
on_answer-IsInTurn w completed s e h = h
on_answer-IsInTurn w (continued_as_new params) s e h = h

InTurn-length : (p : Phase) (h : History) → InTurn p h → length h ≤ continue_as_new_per_turns + 1
unfolding InTurn
InTurn-length waiting h k = ground (arith, k.1)
InTurn-length (prompting r) h k = ground (arith, k.1)
InTurn-length (continuing r) h k = k.1
InTurn-length (ending r) h k = ground (arith, k.1)
InTurn-length failed h k = k
InTurn-length completed h k = ground (arith, k.1)
InTurn-length (continued_as_new params) h k = k.1

fail-IsInTurn :
    (w : EntityBedrockWorkflow) (p : Phase) → w.phase ≡ p → IsInTurn w → IsInTurn (fail p w)
unfolding fail IsInTurn InTurn
fail-IsInTurn w waiting e h = h
fail-IsInTurn w (prompting r) e h = InTurn-length w.phase w.conversation_history h
fail-IsInTurn w (continuing r) e h = InTurn-length w.phase w.conversation_history h
fail-IsInTurn w (ending r) e h = InTurn-length w.phase w.conversation_history h
fail-IsInTurn w failed e h = h
fail-IsInTurn w completed e h = h
fail-IsInTurn w (continued_as_new params) e h = h

user_prompt-IsInTurn :
    (w : EntityBedrockWorkflow) (q : Text) → IsInTurn w → IsInTurn (user_prompt w q)
unfolding user_prompt IsInTurn
user_prompt-IsInTurn w q h = elim (Bool-cases w.chat_ended) [
  | inl over ↦ rw over h
  | inr going ↦ rw going h
]

turn-IsInTurn : (w : EntityBedrockWorkflow) (e : Event) → IsInTurn w → IsInTurn (turn w e)
unfolding turn receive end_chat IsInTurn
turn-IsInTurn w (signals (prompted p)) h = user_prompt-IsInTurn w p h
turn-IsInTurn w (signals ended) h = h
turn-IsInTurn w wakes h = wake-IsInTurn w w.phase refl h
turn-IsInTurn w fails h = fail-IsInTurn w w.phase refl h
turn-IsInTurn w (answers s) h = on_answer-IsInTurn w w.phase s refl h

step-IsInTurn : (w : EntityBedrockWorkflow) (e : Event) → IsInTurn w → IsInTurn (step w e)
unfolding step
step-IsInTurn w e h = elim (Bool-cases (is_open w.phase)) [
  | inr closed ↦ rw closed h
  | inl opened ↦ rw opened (turn-IsInTurn w e h)
]

run_events-IsInTurn :
    (w : EntityBedrockWorkflow) (es : List Event) → IsInTurn w → IsInTurn (run_events w es)
unfolding run_events
run_events-IsInTurn w [] h = h
run_events-IsInTurn w (e ∷ es) h = run_events-IsInTurn (step w e) es (step-IsInTurn w e h)

run-IsInTurn : (params : BedrockParams) (early : List Signal) → IsInTurn (run params early)
unfolding run begin with_summary IsInTurn InTurn alternates without_summary
run-IsInTurn params early =
    let (h, p) = receive_all-history init early in
    go params.conversation_summary (receive_all init early) h p
  where
    go :
        (o : Option Text) (w : EntityBedrockWorkflow)
        → w.conversation_history ≡ []
        → w.phase ≡ waiting
        → let s = with_summary o w in
          IsInTurn (record s { prompt_queue = s.prompt_queue ++ params.prompt_queue })
    go none w h p = rw (p, h) (refl, ground arith)
    go (some []) w h p = rw (p, h) (refl, ground arith)
    go (some (c ∷ cs)) w h p = rw (p, h) (refl, ground arith)

-- After any signals before a run begins and any events in it, its history, without the summary that it may begin with, alternates
-- between prompts and answers. At `wait_condition`, at the end of the chat and once completed, each
-- prompt has its answer and there are fewer than six entries; while the activity for a prompt runs,
-- the last prompt and no other has no answer, and there are at most six; when the run continues as
-- new each has its answer and there are at most seven. A failed run has at most seven entries.
pub run_events-run-IsInTurn :
    (params : BedrockParams) (early : List Signal) (es : List Event)
    → IsInTurn (run_events (run params early) es)
run_events-run-IsInTurn params early es =
    run_events-IsInTurn (run params early) es (run-IsInTurn params early)
