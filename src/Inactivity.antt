-- ===== src/Inactivity.antt =====
-- bedrock/signals_and_queries/workflows.py: a chat that closes after a time without prompts. `run` is
-- cut at wait_condition and at its activities; wait_condition times out only where its condition
-- does not hold.
pub mod Turns
pub mod Accepted
mod Tests
use samples_python.Base.{Bool, true, false, List, [], ◌∷◌, ◌++◌, map, if◌then◌else◌}
use samples_python.Base.Text.{Text, text, join}

pub data Role : Type 0 where
  user response : Role

-- `run`: at wait_condition, at the activity of a prompt or of the summary, or ended.
pub data Phase : Type 0 where
  waiting asking summarizing returned failed : Phase

-- `requests` are what the activities were asked, the latest last.
pub record Chat : Type 0 where
  pub conversation_history : List (Role × Text)
  pub prompt_queue : List Text
  pub conversation_summary : Text
  pub chat_timeout : Bool
  pub phase : Phase
  pub requests : List Text

unfoldable pub new_chat : Chat
new_chat = record {
  conversation_history = [];
  prompt_queue = [];
  conversation_summary = [];
  chat_timeout = false;
  phase = waiting;
  requests = [];
}

abbrev words : Role × Text → Text
words (role, t) = t

unfoldable pub format_history : List (Role × Text) → Text
format_history history = join b' ' (map words history)

unfoldable pub prompt_with_history : Text → List (Role × Text) → Text
unfolding format_history
prompt_with_history prompt history =
    text "Here is the conversation history: "
    ++ format_history history
    ++ text " Please add "
    ++ text "a few sentence response to the prompt in plain text sentences. "
    ++ text "Don't editorialize or add metadata like response. Keep the "
    ++ text "text a plain explanation based on the history. Prompt: "
    ++ prompt

unfoldable pub prompt_summary_from_history : List (Role × Text) → Text
unfolding format_history
prompt_summary_from_history history =
    text "Here is the conversation history between a user and a chatbot: "
    ++ format_history history
    ++ text "  -- Please produce a two sentence summary of "
    ++ text "this conversation."

-- `while self.prompt_queue`, up to the next await
abbrev pub next_prompt : List Text → Chat → Chat
next_prompt [] w = record w { prompt_queue = []; phase = waiting }
next_prompt (prompt ∷ prompts) w =
    let history = w.conversation_history ++ (user, prompt) ∷ [] in
    record w {
      conversation_history = history;
      prompt_queue = prompts;
      phase = asking;
      requests = w.requests ++ prompt_with_history prompt history ∷ [];
    }

unfoldable pub user_prompt : Text → Chat → Chat
user_prompt prompt w =
    if w.chat_timeout then w else record w { prompt_queue = w.prompt_queue ++ prompt ∷ [] }

abbrev pub is_nil : List Text → Bool
is_nil [] = true
is_nil (t ∷ ts) = false

abbrev pub timed_out : Phase → Chat → Chat
timed_out waiting w =
    if is_nil w.prompt_queue
    then record w {
      chat_timeout = true;
      phase = summarizing;
      requests = w.requests ++ prompt_summary_from_history w.conversation_history ∷ [];
    }
    else w
timed_out asking w = w
timed_out summarizing w = w
timed_out returned w = w
timed_out failed w = w

abbrev pub woken : Phase → Chat → Chat
woken waiting w = next_prompt w.prompt_queue w
woken asking w = w
woken summarizing w = w
woken returned w = w
woken failed w = w

abbrev pub answered : Text → Phase → Chat → Chat
answered t waiting w = w
answered t asking w =
    next_prompt w.prompt_queue
      (record w { conversation_history = w.conversation_history ++ (response, t) ∷ [] })
answered t summarizing w = record w { conversation_summary = t; phase = returned }
answered t returned w = w
answered t failed w = w

-- An activity fails, and so does the workflow.
abbrev pub broken : Phase → Chat → Chat
broken waiting w = w
broken asking w = record w { phase = failed }
broken summarizing w = record w { phase = failed }
broken returned w = w
broken failed w = w

pub data Event : Type 0 where
  prompted answers : Text → Event
  wakes times_out fails : Event

unfoldable pub step : Chat → Event → Chat
unfolding user_prompt prompt_with_history prompt_summary_from_history
step w (prompted t) = user_prompt t w
step w (answers t) = answered t w.phase w
step w wakes = woken w.phase w
step w times_out = timed_out w.phase w
step w fails = broken w.phase w

unfoldable pub run_events : Chat → List Event → Chat
unfolding step
run_events w [] = w
run_events w (e ∷ es) = run_events (step w e) es
