-- ===== src/Inactivity/Turns.antt =====
-- The prompts and the answers of a chat.
use mathlib.Core.List.{append_assoc}
use samples_python.Base.{
  Bool, true, false, List, [], ◌∷◌, ◌++◌, ◌≡◌, refl, ap, ◌∙◌, Option, some, none,
}
use samples_python.Base.Text.{Text}
use samples_python.Inactivity.{
  Role, user, response, Phase, waiting, asking, summarizing, returned, failed, Chat, next_prompt,
  Event, prompted, answers, wakes, times_out, fails, step,
}

-- The prompts in a history.
unfoldable pub prompts : List (Role × Text) → List Text
prompts [] = []
prompts ((user, t) ∷ history) = t ∷ prompts history
prompts ((response, t) ∷ history) = prompts history

-- The prompt of an event, unless the chat is closed.
abbrev pub added : Bool → Event → List Text
added true e = []
added false (prompted t) = t ∷ []
added false (answers t) = []
added false wakes = []
added false times_out = []
added false fails = []

-- The prompts that come before the chat is closed.
unfoldable pub accepted : Chat → List Event → List Text
accepted w [] = []
accepted w (e ∷ es) = added w.chat_timeout e ++ accepted (step w e) es

abbrev pub turned : Role → Role → Option Role
turned user user = some response
turned user response = none
turned response user = none
turned response response = some user

abbrev pub after_turn : Option Role → Role → Option Role
after_turn none r = none
after_turn (some s) r = turned s r

-- Whose turn it is after a history, `none` if someone spoke out of turn.
unfoldable pub turn_after : Option Role → List (Role × Text) → Option Role
turn_after o [] = o
turn_after o ((r, t) ∷ history) = turn_after (after_turn o r) history

-- What each phase says of whose turn it is, and of the queue.
abbrev pub InTurn : Phase → Chat → Type 0
InTurn waiting w = turn_after (some user) w.conversation_history ≡ some user
InTurn asking w = turn_after (some user) w.conversation_history ≡ some response
InTurn summarizing w =
    (turn_after (some user) w.conversation_history ≡ some user)
    × (w.prompt_queue ≡ [])
    × (w.chat_timeout ≡ true)
InTurn returned w =
    (turn_after (some user) w.conversation_history ≡ some user)
    × (w.prompt_queue ≡ [])
    × (w.chat_timeout ≡ true)
InTurn failed w = Unit

pub prompts-append : (h k : List (Role × Text)) → prompts (h ++ k) ≡ prompts h ++ prompts k
unfolding prompts
prompts-append [] k = refl
prompts-append ((user, t) ∷ h) k = ap (λ r. t ∷ r) (prompts-append h k)
prompts-append ((response, t) ∷ h) k = prompts-append h k

pub turn_after-append :
    (o : Option Role) (h : List (Role × Text)) (r : Role) (t : Text)
    → turn_after o (h ++ (r, t) ∷ []) ≡ after_turn (turn_after o h) r
unfolding turn_after
turn_after-append o [] r t = refl
turn_after-append o ((s, u) ∷ h) r t = turn_after-append (after_turn o s) h r t

-- The prompts that were taken and those that wait.
abbrev pub asked : Chat → List Text
asked w = prompts w.conversation_history ++ w.prompt_queue

unfoldable pub IsInTurn : Chat → Type 0
IsInTurn w = InTurn w.phase w

pub next_prompt-asked :
    (queue : List Text) (w : Chat)
    → asked (next_prompt queue w) ≡ prompts w.conversation_history ++ queue
unfolding prompts
next_prompt-asked [] w = refl
next_prompt-asked (t ∷ queue) w =
    ap (λ p. p ++ queue) (prompts-append w.conversation_history ((user, t) ∷ []))
    ∙ append_assoc (prompts w.conversation_history) (t ∷ []) queue

pub next_prompt-IsInTurn :
    (queue : List Text) (w : Chat)
    → turn_after (some user) w.conversation_history ≡ some user
    → IsInTurn (next_prompt queue w)
unfolding IsInTurn
next_prompt-IsInTurn [] w h = h
next_prompt-IsInTurn (t ∷ queue) w h =
    turn_after-append (some user) w.conversation_history user t ∙ ap (λ o. after_turn o user) h
