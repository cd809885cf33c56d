-- ===== src/Versioning/Tests.antt =====
-- Runs of the versions at concrete signals.
use samples_python.Base.{true, List, [], ◌∷◌, ◌≡◌, refl}
use samples_python.Base.Text.{text, text_beq, text_eq}
use samples_python.Versioning.{
  some_activity, some_incompatible_activity, completed, auto_upgrading_v1, auto_upgrading_v1b,
  pinned_v1, pinned_v2, take_signal, wakes, activity_ends, Event, signalled, proceeds,
  activity_done, step, run_events,
}
use samples_python.Versioning.Lockstep.{auto_upgrading_v1-auto_upgrading_v1b}

abbrev act_twice : List Event
act_twice =
    signalled (text "do-activity")
    ∷ signalled (text "do-activity")
    ∷ proceeds
    ∷ proceeds
    ∷ activity_done
    ∷ proceeds
    ∷ activity_done
    ∷ signalled (text "conclude")
    ∷ proceeds
    ∷ []

auto_upgrading_v1-auto_upgrading_v1b_example :
    run_events (auto_upgrading_v1b true) (auto_upgrading_v1b true).first act_twice ≡ record {
      signals = [];
      phase = completed;
      started =
          some_incompatible_activity (text "v1b") (text "hello!")
          ∷ some_incompatible_activity (text "v1b") (text "hello!")
          ∷ [];
    }
unfolding auto_upgrading_v1 run_events step wakes take_signal activity_ends text_beq
auto_upgrading_v1-auto_upgrading_v1b_example = auto_upgrading_v1-auto_upgrading_v1b true act_twice

abbrev conclude : List Event
conclude =
    signalled (text "other")
    ∷ activity_done
    ∷ proceeds
    ∷ signalled (text "conclude")
    ∷ proceeds
    ∷ activity_done
    ∷ []

pinned_v1_test :
    run_events pinned_v1 pinned_v1.first conclude
    ≡ record { signals = []; phase = completed; started = some_activity (text "Pinned-v1") ∷ [] }
unfolding pinned_v1 run_events step wakes take_signal activity_ends text_beq
pinned_v1_test = refl

pinned_v2_test : run_events pinned_v2 pinned_v2.first conclude ≡ record {
  signals = [];
  phase = completed;
  started =
      some_activity (text "Pinned-v2")
      ∷ some_incompatible_activity (text "Pinned-v2") (text "hi")
      ∷ [];
}
unfolding pinned_v2 run_events step wakes take_signal activity_ends text_beq
pinned_v2_test = refl
