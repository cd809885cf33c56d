-- ===== src/Inactivity/Tests.antt =====
-- A chat of two prompts, the second of which comes while the first is answered.
use samples_python.Base.{List, [], ◌∷◌, ◌++◌, ◌≡◌, refl}
use samples_python.Base.Text.{text}
use samples_python.Inactivity.{
  user, response, new_chat, returned, asking, user_prompt, prompted, answers, wakes, times_out,
  Event, step, run_events,
}
use samples_python.Inactivity.Turns.{prompts, accepted, InTurn}
use samples_python.Inactivity.Accepted.{run_events-accepted}

abbrev chat : List Event
chat =
    prompted (text "a")
    ∷ wakes
    ∷ prompted (text "b")
    ∷ answers (text "c")
    ∷ answers (text "d")
    ∷ times_out
    ∷ prompted (text "late")
    ∷ answers (text "e")
    ∷ []

chat_test :
    ((run_events new_chat chat).conversation_history
      ≡ (user, text "a") ∷ (response, text "c") ∷ (user, text "b") ∷ (response, text "d") ∷ [])
    × ((run_events new_chat chat).phase ≡ returned)
    × (accepted new_chat chat ≡ text "a" ∷ text "b" ∷ [])
unfolding run_events step user_prompt new_chat accepted
chat_test = (refl, refl, refl)

-- A prompt that waits is taken before the chat can close.
waiting_prompt_test :
    (run_events new_chat (prompted (text "a") ∷ times_out ∷ wakes ∷ [])).phase ≡ asking
unfolding run_events step user_prompt new_chat
waiting_prompt_test = refl

run_events-accepted_example :
    (prompts (run_events new_chat chat).conversation_history
        ++ (run_events new_chat chat).prompt_queue
      ≡ accepted new_chat chat)
    × InTurn (run_events new_chat chat).phase (run_events new_chat chat)
run_events-accepted_example = run_events-accepted chat
