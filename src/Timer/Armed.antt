-- ===== src/Timer/Armed.antt =====
-- The timer that runs is the one for the wake-up time, unless a change is still to be noticed.
use samples_python.Base.{true, ◌≡◌, ◌⊎◌}
use samples_python.Timer.{Phase, waiting, completed, UpdatableTimer}

unfoldable pub Armed : Phase → UpdatableTimer → Type 0
Armed completed t = Unit {0}
Armed (waiting timer) t = (t.wake_up_time_updated ≡ true) ⊎ (timer ≡ t.wake_up_time)

unfoldable pub IsArmed : UpdatableTimer → Type 0
unfolding Armed
IsArmed t = Armed t.phase t
