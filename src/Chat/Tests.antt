-- ===== src/Chat/Tests.antt =====
-- Chats at concrete inputs.
use samples_python.Base.{none, some, List, [], ◌∷◌, ◌≡◌, refl}
use mathlib.Core.List.{Perm}
use samples_python.Base.Text.{text, join, join_more}
use samples_python.Chat.{
  BedrockParams, user, response, waiting, continued_as_new, run, Event, prompted, ended, signals,
  receive, receive_all, begin, wakes, answers, step, run_events, user_prompt, end_chat,
  prompt_with_history, format_history,
}
use samples_python.Chat.Chain.{Round, serve, last, more, Chain-prompts}
use samples_python.Chat.Turns.{IsInTurn, run_events-run-IsInTurn}

abbrev no_params : BedrockParams
no_params = record { conversation_summary = none; prompt_queue = [] }

-- A prompt that is answered, and the end of the chat.
abbrev short_chat : List Event
short_chat =
    signals (prompted (text "a"))
    ∷ wakes
    ∷ answers (text "b")
    ∷ signals ended
    ∷ signals (prompted (text "late"))
    ∷ wakes
    ∷ answers (text "s")
    ∷ []

prompt_with_history_test :
    prompt_with_history ((user, text "a") ∷ []) (text "a")
    ≡ text
        "Here is the conversation history: a Please add a few sentence response to the prompt in plain text sentences. Don't editorialize or add metadata like response. Keep the text a plain explanation based on the history. Prompt: a"
unfolding prompt_with_history format_history join join_more
prompt_with_history_test = refl

run_events_test :
    (run_events (run no_params []) short_chat).conversation_history
    ≡ (user, text "a") ∷ (response, text "b") ∷ []
unfolding run begin receive_all receive run_events step user_prompt end_chat
run_events_test = refl

-- Three turns, and one more prompt before the summary; then a run that answers it.
abbrev long_chat : List Event
long_chat =
    signals (prompted (text "a"))
    ∷ wakes
    ∷ answers (text "b")
    ∷ signals (prompted (text "c"))
    ∷ wakes
    ∷ answers (text "d")
    ∷ signals (prompted (text "e"))
    ∷ wakes
    ∷ answers (text "f")
    ∷ signals (prompted (text "g"))
    ∷ signals ended
    ∷ answers (text "s")
    ∷ []

abbrev next_params : BedrockParams
next_params = record { conversation_summary = some (text "s"); prompt_queue = text "g" ∷ [] }

long_chat_test : (run_events (run no_params []) long_chat).phase ≡ continued_as_new next_params
unfolding run begin receive_all receive run_events step user_prompt end_chat
long_chat_test = refl

-- The chat was ended in the first run; the next one does not know of it and goes on waiting.
end_chat_test :
    (run_events (run next_params []) (wakes ∷ answers (text "h") ∷ wakes ∷ [])).phase ≡ waiting
unfolding run begin receive_all receive run_events step user_prompt end_chat
end_chat_test = refl

-- In the next run a prompt that comes before the run begins is told before the one that the first
-- run left.
abbrev rounds : List Round
rounds =
    record { early = []; late = text "a" ∷ text "c" ∷ text "e" ∷ text "g" ∷ []; told = 3 }
    ∷ record { early = text "x" ∷ []; late = []; told = 2 }
    ∷ []

Chain-prompts_example :
    Perm
      (text "a" ∷ text "c" ∷ text "e" ∷ text "x" ∷ text "g" ∷ [])
      (text "a" ∷ text "c" ∷ text "e" ∷ text "g" ∷ text "x" ∷ [])
    × (serve [] rounds ≡ (text "a" ∷ text "c" ∷ text "e" ∷ text "x" ∷ text "g" ∷ [], []))
unfolding run begin receive_all receive run_events step user_prompt end_chat
Chain-prompts_example = Chain-prompts (
    more no_params next_params [] long_chat _ (text "x" ∷ text "g" ∷ []) refl (
      last next_params (prompted (text "x") ∷ [])
        (wakes
          ∷ answers (text "y")
          ∷ wakes
          ∷ answers (text "h")
          ∷ signals ended
          ∷ wakes
          ∷ answers (text "t")
          ∷ [])
        refl))

run_events-run-IsInTurn_example : IsInTurn (run_events (run no_params []) short_chat)
run_events-run-IsInTurn_example = run_events-run-IsInTurn no_params [] short_chat
