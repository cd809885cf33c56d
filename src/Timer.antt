-- ===== src/Timer.antt =====
-- updatable_timer/updatable_timer_lib.py: a sleep whose end may be moved while it lasts. A turn of
-- the loop runs up to its await; `wait_condition` ends when its condition holds or its timer fires.
-- Times are numbers of microseconds.
pub mod Armed
mod Tests
use samples_python.Base.{ℕ, ◌-◌, ◌+◌, Bool, true, false, List, [], ◌∷◌, if◌then◌else◌, leb, ltb}

-- Where `sleep` is: at `wait_condition` with a timer, or past the loop.
pub data Phase : Type 0 where
  waiting : (timer : ℕ) → Phase
  completed : Phase

pub record UpdatableTimer : Type 0 where
  pub wake_up_time : ℕ
  pub wake_up_time_updated : Bool
  pub phase : Phase

-- A turn of the loop at the time `now`.
unfoldable pub loop : (now : ℕ) → UpdatableTimer → UpdatableTimer
loop now t =
    let sleep_interval = t.wake_up_time - now in
    if leb sleep_interval 0
    then record t { phase = completed }
    else record t { wake_up_time_updated = false; phase = waiting (now + sleep_interval) }

-- `sleep` on a new timer
unfoldable pub sleep : (wake_up_time now : ℕ) → UpdatableTimer
unfolding loop
sleep wake_up_time now =
    loop now
      (record { wake_up_time = wake_up_time; wake_up_time_updated = false; phase = completed })

unfoldable pub update_wake_up_time : ℕ → UpdatableTimer → UpdatableTimer
update_wake_up_time wake_up_time t = record t {
  wake_up_time = wake_up_time;
  wake_up_time_updated = true;
}

pub data Event : Type 0 where
  updates : (wake_up_time : ℕ) → Event
  condition_holds timer_fires : (now : ℕ) → Event

abbrev resume : Phase → (now : ℕ) → UpdatableTimer → UpdatableTimer
resume completed now t = t
resume (waiting timer) now t = if t.wake_up_time_updated then loop now t else t

-- The timer fires at its time or later.
abbrev time_out : Phase → (now : ℕ) → UpdatableTimer → UpdatableTimer
time_out completed now t = t
time_out (waiting timer) now t = if ltb now timer then t else loop now t

unfoldable pub step : UpdatableTimer → Event → UpdatableTimer
unfolding loop update_wake_up_time
step t (updates wake_up_time) = update_wake_up_time wake_up_time t
step t (condition_holds now) = resume t.phase now t
step t (timer_fires now) = time_out t.phase now t

unfoldable pub run_events : UpdatableTimer → List Event → UpdatableTimer
unfolding step
run_events t [] = t
run_events t (e ∷ es) = run_events (step t e) es
