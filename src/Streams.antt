-- ===== src/Streams.antt =====
-- workflow_streams: TickerWorkflow (workflows/ticker_workflow.py), PipelineWorkflow
-- (workflows/pipeline_workflow.py) and a subscriber that reconnects
-- (run_reconnecting_subscriber.py), over an interface of the SDK's stream. Sleeping is left out.
pub mod Log
pub mod Bounds
pub mod Reconnect
mod Tests
use samples_python.Base.{
  ◌>>=◌, ℕ, zero, suc, ◌+◌, ◌-◌, ◌%◌, Bool, true, false, ◌&&◌, Option, none, some, List, [], ◌∷◌,
  ◌++◌, if◌then◌else◌, ltb, leb, nat_beq, ◌==◌,
}
use samples_python.Base.Text.{Text, text, text_eq}
use samples_python.Streams.Log.{WorkflowStream, Item}

pub record TickerInput (StreamState : Type 0) : Type 0 where
  pub count : ℕ
  pub keep_last : ℕ
  pub truncate_every : ℕ
  pub stream_state : Option StreamState

-- `self._published % input.truncate_every`, which raises ZeroDivisionError for 0.
abbrev pub remainder : ℕ → ℕ → Option ℕ
remainder n zero = none
remainder n (suc m) = some (n % suc m)

module _ (W : WorkflowStream ℕ) where
  pub record Ticker : Type 0 where
    pub stream : W.Stream
    pub published : ℕ

  unfoldable pub new_ticker : TickerInput W.StreamState → Ticker
  new_ticker input = record { stream = W.new input.stream_state; published = 0 }

  abbrev pub truncated : (keep_last : ℕ) → Option ℕ → Ticker → Option Ticker
  truncated keep_last none t = none
  truncated keep_last (some r) t =
      if nat_beq r 0 && ltb keep_last t.published
      then some (record t { stream = W.truncate (t.published - keep_last) t.stream })
      else some t

  -- One turn of the loop, `none` where it raises.
  unfoldable pub tick : TickerInput W.StreamState → (n : ℕ) → Ticker → Option Ticker
  tick input n t =
      let after = record t { stream = W.publish n t.stream; published = t.published + 1 } in
      truncated input.keep_last (remainder after.published input.truncate_every) after

  -- The loop from `n`, as many turns as are left.
  unfoldable pub ticks : TickerInput W.StreamState → (left : ℕ) → (n : ℕ) → Ticker → Option Ticker
  unfolding tick
  ticks input zero n t = some t
  ticks input (suc left) n t = do after ← tick input n t; ticks input left (n + 1) after

  -- `run`, up to its last sleep
  unfoldable pub run_ticker : TickerInput W.StreamState → Option Ticker
  unfolding ticks new_ticker
  run_ticker input = ticks input input.count 0 (new_ticker input)

abbrev pub stages : List Text
stages =
    text "validating"
    ∷ text "loading data"
    ∷ text "transforming"
    ∷ text "writing output"
    ∷ text "verifying"
    ∷ text "complete"
    ∷ []

module _ (W : WorkflowStream Text) where
  unfoldable pub publish_all : List Text → W.Stream → W.Stream
  publish_all [] stream = stream
  publish_all (stage ∷ stages) stream = publish_all stages (W.publish stage stream)

  -- `PipelineWorkflow.run`, to its stream
  unfoldable pub run_pipeline : W.Stream → W.Stream
  unfolding publish_all
  run_pipeline stream = publish_all stages stream

pub record State : Type 0 where
  pub processed : ℕ
  pub available : ℕ

-- `max(0, self.available - self.processed)`
unfoldable pub pending : State → ℕ
pending state = state.available - state.processed

abbrev pub phase_1_events : ℕ
phase_1_events = 2

-- What happens while a subscriber reads: an item, or the poller's answer, `none` where it raises.
pub data Happening : Type 0 where
  item : Item Text → Happening
  polled : Option ℕ → Happening

abbrev pub refreshed : Option ℕ → State → State
refreshed none state = state
refreshed (some offset) state = record state { available = offset }

abbrev pub seen_one : Item Text → State → State
seen_one i state = record state { processed = i.offset + 1 }

abbrev pub shown : Item Text → State × List (Item Text) → State × List (Item Text)
shown i (state, items) = (state, i ∷ items)

-- The loop of the first phase, with the state it leaves and the items it shows.
unfoldable pub phase_1 : (seen : ℕ) → List Happening → State → State × List (Item Text)
phase_1 seen [] state = (state, [])
phase_1 seen (polled answer ∷ hs) state = phase_1 seen hs (refreshed answer state)
phase_1 seen (item i ∷ hs) state =
    let rest = phase_1 (seen + 1) hs (seen_one i state) in
    if leb phase_1_events (seen + 1) then (seen_one i state, i ∷ []) else shown i rest

-- The loop of the second.
unfoldable pub phase_2 : List Happening → State → State × List (Item Text)
phase_2 [] state = (state, [])
phase_2 (polled answer ∷ hs) state = phase_2 hs (refreshed answer state)
phase_2 (item i ∷ hs) state =
    let rest = phase_2 hs (seen_one i state) in
    if i.event == text "complete" then (seen_one i state, i ∷ []) else shown i rest

unfoldable pub disconnected : List (Option ℕ) → State → State
disconnected [] state = state
disconnected (answer ∷ answers) state = disconnected answers (refreshed answer state)

-- `main`: the items shown in both phases, and the state. What the second subscription brings depends
-- on the offset that it starts from.
unfoldable pub main :
    List Happening
    → List (Option ℕ)
    → ((from_offset : ℕ) → List Happening)
    → State × List (Item Text)
unfolding phase_1 phase_2 disconnected
main first between second =
    let (state, items) = phase_1 0 first (record { processed = 0; available = 0 }) in
    let away = disconnected between state in
    let (last, more) = phase_2 (second away.processed) away in (last, items ++ more)
