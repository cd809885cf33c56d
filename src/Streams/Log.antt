-- ===== src/Streams/Log.antt =====
-- The SDK's stream of a workflow: a log of events with increasing offsets, cut off from the front.
use samples_python.Base.{drop, ℕ, ◌+◌, ◌-◌, ◌≤◌, Option, none, List, [], ◌∷◌, ◌++◌, ◌≡◌, length}

pub record Item (Event : Type 0) : Type 0 where
  pub offset : ℕ
  pub event : Event

-- `StreamState` is what a run hands to the next, `none` for a fresh start, of which alone the laws
-- speak. `truncate` drops what is before an offset that the log has reached.
pub record WorkflowStream (Event : Type 0) : Type 1 where
  pub Stream : Type 0
  pub StreamState : Type 0
  pub new : (prior_state : Option StreamState) → Stream
  pub publish : Event → Stream → Stream
  pub truncate : ℕ → Stream → Stream
  pub base_offset : Stream → ℕ
  pub log : Stream → List Event
  pub base_offset-new : base_offset (new none) ≡ 0
  pub log-new : log (new none) ≡ []
  pub base_offset-publish : (e : Event) (s : Stream) → base_offset (publish e s) ≡ base_offset s
  pub log-publish : (e : Event) (s : Stream) → log (publish e s) ≡ log s ++ e ∷ []
  pub base_offset-truncate :
      (n : ℕ) (s : Stream)
      → base_offset s ≤ n
      → n ≤ base_offset s + length (log s)
      → base_offset (truncate n s) ≡ n
  pub log-truncate :
      (n : ℕ) (s : Stream)
      → base_offset s ≤ n
      → n ≤ base_offset s + length (log s)
      → log (truncate n s) ≡ drop (n - base_offset s) (log s)
