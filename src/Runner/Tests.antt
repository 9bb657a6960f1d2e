-- ===== src/Runner/Tests.antt =====
-- The runner over an application that counts its polls.
use onboard_autonomy.Base.{
  ℕ, suc, ◌≡◌, refl, true, false, Option, none, some, List, [], ◌∷◌, returned, IfReturns,
}
use onboard_autonomy.Runner.{
  Application, ForwardMonitor, CompanionRunner, Round, shutdown, Output, consumed, run,
}
use onboard_autonomy.Runner.Pacing.{IsPaced, run-IsPaced}
use onboard_autonomy.Runner.Stopping.{Untouched, run-Ends}
use onboard_autonomy.Runner

abbrev counting : Application ℕ (Unit {0}) ℕ ℕ
counting = record {
  poll = λ i polls. returned (suc polls);
  take_latest_processed_camera_frame = λ polls. (polls, some polls);
  snapshot = λ now polls. (polls, polls);
}

abbrev no_monitor : ForwardMonitor (Unit {0}) ℕ
no_monitor = record {
  take_latest_error = λ m. (m, none);
  take_latest_processed_frame = λ m. (m, none);
}

abbrev started : CompanionRunner ℕ (Unit {0}) ℕ ℕ
started = record {
  application = 0;
  forward_camera_monitor = some tt;
  commands_read = true;
  snapshot_sinks = some 1 ∷ none ∷ some 2 ∷ [];
  preview_sinks = [];
  snapshot_interval = 100;
  next_snapshot = 1000;
  keep_running = true;
  outputs = [];
}

abbrev at : ℕ → Round (Unit {0})
at now = record {
  signal_first = false;
  commands = [];
  signal_second = false;
  inputs = tt;
  now = now;
}

abbrev last_round : Round (Unit {0})
last_round = record {
  signal_first = false;
  commands = shutdown ∷ [];
  signal_second = false;
  inputs = tt;
  now = 2000;
}

-- Four polls, and snapshots at 1000 and 1100 for the two sinks.
four_rounds :
    run counting no_monitor
      (at 1000 ∷ at 1050 ∷ at 1100 ∷ at 1150 ∷ last_round ∷ at 3000 ∷ [])
      started
    ≡ returned (
      record started {
        application = 4;
        next_snapshot = 1200;
        keep_running = false;
        outputs =
            consumed 2 1100 3 ∷ consumed 1 1100 3 ∷ consumed 2 1000 1 ∷ consumed 1 1000 1 ∷ [];
      },
      false,
    )
unfolding run Runner.after_test Runner.after_commands Runner.handle_runtime_commands
    Runner.publish_camera_frames Runner.publish_forward_camera_frame
    Runner.publish_downward_camera_frame Runner.publish_snapshot Runner.present
four_rounds = refl

abbrev sample_sinks : List (Option ℕ)
sample_sinks = some 1 ∷ none ∷ some 2 ∷ []

started-IsPaced : IsPaced 100 sample_sinks started
unfolding Runner.Pacing.given
started-IsPaced = (refl, refl, record { taken = []; apart = tt; due = tt; complete = refl })

run-IsPaced_example :
    IfReturns
      (λ s. IsPaced 100 sample_sinks s.0)
      (run counting no_monitor (at 1000 ∷ at 1050 ∷ at 1100 ∷ []) started)
run-IsPaced_example =
    run-IsPaced 100 sample_sinks counting no_monitor (at 1000 ∷ at 1050 ∷ at 1100 ∷ []) started
      started-IsPaced

run-Ends_example :
    (r' : CompanionRunner ℕ (Unit {0}) ℕ ℕ) × (run counting no_monitor
        (last_round ∷ at 3000 ∷ [])
        started
      ≡ returned (r', false))
    × Untouched started r'
run-Ends_example = run-Ends counting no_monitor last_round (at 3000 ∷ []) started refl
