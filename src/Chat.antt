-- ===== src/Chat.antt =====
-- bedrock/entity/workflows.py: a chat that answers queued prompts one at a time and continues as
-- new with a summary. A run is cut at its awaits; the answers of the activity are events.
pub mod Queue
pub mod Ended
pub mod Chain
pub mod Turns
mod Tests
use samples_python.Base.{
  ℕ, Bool, true, false, Option, none, some, List, [], ◌∷◌, ◌++◌, if◌then◌else◌, ltb, not, length,
}
use samples_python.Base.Text.{Text, text, join}

pub record BedrockParams : Type 0 where
  pub conversation_summary : Option Text
  pub prompt_queue : List Text

pub data Speaker : Type 0 where
  conversation_summary user response : Speaker

abbrev pub History : Type 0
History = List (Speaker × Text)

-- Where a run is: at `wait_condition`, or at the activity for a prompt, for the summary before it
-- continues as new or for the summary at the end; or how it has ended.
pub data Phase : Type 0 where
  waiting failed completed : Phase
  prompting continuing : (request : Text) → Phase
  ending : (request : Text) → Phase
  continued_as_new : BedrockParams → Phase

pub record EntityBedrockWorkflow : Type 0 where
  pub conversation_history : History
  pub prompt_queue : List Text
  pub conversation_summary : Option Text
  pub chat_ended : Bool
  pub phase : Phase

abbrev pub continue_as_new_per_turns : ℕ
continue_as_new_per_turns = 6

abbrev pub init : EntityBedrockWorkflow
init = record {
  conversation_history = [];
  prompt_queue = [];
  conversation_summary = none;
  chat_ended = false;
  phase = waiting;
}

with_summary : Option Text → EntityBedrockWorkflow → EntityBedrockWorkflow
with_summary none w = w
with_summary (some []) w = w
with_summary (some (c ∷ cs)) w = record w {
  conversation_history = w.conversation_history ++ (conversation_summary, c ∷ cs) ∷ [];
  conversation_summary = some (c ∷ cs);
}

unfoldable pub user_prompt : EntityBedrockWorkflow → Text → EntityBedrockWorkflow
user_prompt w prompt =
    if w.chat_ended then w else record w { prompt_queue = w.prompt_queue ++ prompt ∷ [] }

unfoldable pub end_chat : EntityBedrockWorkflow → EntityBedrockWorkflow
end_chat w = record w { chat_ended = true }

pub data Signal : Type 0 where
  prompted : (prompt : Text) → Signal
  ended : Signal

unfoldable pub receive : EntityBedrockWorkflow → Signal → EntityBedrockWorkflow
unfolding user_prompt end_chat
receive w (prompted prompt) = user_prompt w prompt
receive w ended = end_chat w

unfoldable pub receive_all : EntityBedrockWorkflow → List Signal → EntityBedrockWorkflow
unfolding receive
receive_all w [] = w
receive_all w (s ∷ ss) = receive_all (receive w s) ss

-- `run` from its start to its first await
unfoldable pub begin : BedrockParams → EntityBedrockWorkflow → EntityBedrockWorkflow
unfolding with_summary
begin params w =
    let s = with_summary params.conversation_summary w in
    record s { prompt_queue = s.prompt_queue ++ params.prompt_queue }

-- The same on a new workflow, whose handlers may have run first for signals that came before.
unfoldable pub run : BedrockParams → (early : List Signal) → EntityBedrockWorkflow
unfolding begin receive_all
run params early = begin params (receive_all init early)

abbrev texts : History → List Text
texts [] = []
texts ((speaker, s) ∷ h) = s ∷ texts h

unfoldable pub format_history : History → Text
format_history h = join b' ' (texts h)

unfoldable pub prompt_with_history : History → (prompt : Text) → Text
unfolding format_history
prompt_with_history h prompt =
    text "Here is the conversation history: "
    ++ format_history h
    ++ text " Please add a few sentence response to the prompt in plain text sentences. "
    ++ text "Don't editorialize or add metadata like response. Keep the "
    ++ text "text a plain explanation based on the history. Prompt: "
    ++ prompt

unfoldable pub prompt_summary_from_history : History → Text
unfolding format_history
prompt_summary_from_history h =
    text "Here is the conversation history between a user and a chatbot: "
    ++ format_history h
    ++ text "  -- Please produce a two sentence summary of this conversation."

-- The run goes on from `wait_condition`, if the condition holds.
after_wait : List Text → EntityBedrockWorkflow → EntityBedrockWorkflow
unfolding prompt_with_history prompt_summary_from_history
after_wait (prompt ∷ prompts) w =
    let h = w.conversation_history ++ (user, prompt) ∷ [] in
    record w {
      conversation_history = h;
      prompt_queue = prompts;
      phase = prompting (prompt_with_history h prompt);
    }
after_wait [] w =
    if not w.chat_ended
    then w
    else if ltb 1 (length w.conversation_history)
    then record w { phase = ending (prompt_summary_from_history w.conversation_history) }
    else record w { phase = completed }

-- The activity's answer arrives.
on_answer : Phase → Text → EntityBedrockWorkflow → EntityBedrockWorkflow
unfolding prompt_summary_from_history
on_answer (prompting request) answer w =
    let h = w.conversation_history ++ (response, answer) ∷ [] in
    record w {
      conversation_history = h;
      phase =
          if ltb (length h) continue_as_new_per_turns
          then waiting
          else continuing (prompt_summary_from_history h);
    }
on_answer (continuing request) answer w = record w {
  conversation_summary = some answer;
  phase =
      continued_as_new
        (record { conversation_summary = some answer; prompt_queue = w.prompt_queue });
}
on_answer (ending request) answer w = record w {
  conversation_summary = some answer;
  phase = completed;
}
on_answer _ answer w = w

pub data Event : Type 0 where
  signals : Signal → Event
  wakes fails : Event
  answers : (answer : Text) → Event

wake : Phase → EntityBedrockWorkflow → EntityBedrockWorkflow
unfolding after_wait
wake waiting w = after_wait w.prompt_queue w
wake _ w = w

fail : Phase → EntityBedrockWorkflow → EntityBedrockWorkflow
fail (prompting request) w = record w { phase = failed }
fail (continuing request) w = record w { phase = failed }
fail (ending request) w = record w { phase = failed }
fail _ w = w

-- A run that has ended takes no more events.
abbrev pub is_open : Phase → Bool
is_open failed = false
is_open completed = false
is_open (continued_as_new params) = false
is_open _ = true

turn : EntityBedrockWorkflow → Event → EntityBedrockWorkflow
unfolding receive wake on_answer fail
turn w (signals s) = receive w s
turn w wakes = wake w.phase w
turn w (answers answer) = on_answer w.phase answer w
turn w fails = fail w.phase w

unfoldable pub step : EntityBedrockWorkflow → Event → EntityBedrockWorkflow
unfolding turn
step w e = if is_open w.phase then turn w e else w

unfoldable pub run_events : EntityBedrockWorkflow → List Event → EntityBedrockWorkflow
unfolding step
run_events w [] = w
run_events w (e ∷ es) = run_events (step w e) es
