-- ===== src/Failsafe/Tests.antt =====
-- The theorems about the failsafe check at concrete histories.
use onboard_autonomy.Base.{ap, ◌≡◌, refl, ◌↔◌, ◌≢◌, inr, true, some, text, text_eq, arith, ℤ, pos}
use onboard_autonomy.Fixtures.{sample_doubles, sample_integers}
use onboard_autonomy.Failsafe.{
  accepted, initial, observe_vehicle, on_parameter, received, reset, empty_snapshot,
}
use onboard_autonomy.Failsafe.Gate.{IsSafe, IsTimely}
use onboard_autonomy.Failsafe.Invariant.{IsValid, initial-IsValid}
use onboard_autonomy.Failsafe.Order.{on_parameter_comm}
use onboard_autonomy.Failsafe.Session.{
  run, run-accepted, observe_vehicle-forgets, configuration, configuration-accepted,
}

five_seconds : IsTimely (some (pos 5000))
five_seconds = record {
  seconds = pos 5000;
  given = refl;
  bounded = refl;
  not_short = refl;
  not_long = refl;
}

configuration-accepted_example :
    (run (configuration sample_integers 7 (pos 5000) 1) initial).snapshot.phase ≡ accepted
configuration-accepted_example =
    configuration-accepted sample_integers 7 (pos 5000) 1 (omega arith) (omega arith) five_seconds
      (omega arith) refl refl

run-accepted_example :
    ((run (configuration sample_integers 7 (pos 5000) 18) initial).snapshot.phase ≡ accepted)
    ↔ IsSafe (run (configuration sample_integers 7 (pos 5000) 18) initial)
run-accepted_example = run-accepted (configuration sample_integers 7 (pos 5000) 18)

initial_sample : IsValid {D = ℤ} initial
initial_sample = initial-IsValid

observe_vehicle-forgets_example :
    (received {D = ℤ} (observe_vehicle true (some 9) initial) ≡ 0)
    × ((observe_vehicle {D = ℤ} true (some 9) initial).snapshot.phase ≢ accepted)
unfolding initial empty_snapshot
observe_vehicle-forgets_example =
    observe_vehicle-forgets true (some 9) initial initial_sample (inr (λ e. cc))

different_names : text "FS_OPTIONS" ≢ text "SYSID_MYGCS"
unfolding text
different_names e = ground (arith, ap (λ id. text_eq id (text "FS_OPTIONS")) e)

on_parameter_comm_example :
    on_parameter {D = ℤ} 7 1
      (text "FS_OPTIONS")
      (pos 1000)
      (on_parameter 7 1 (text "SYSID_MYGCS") (pos 7000) (reset (some 7)))
    ≡ on_parameter 7 1
        (text "SYSID_MYGCS")
        (pos 7000)
        (on_parameter 7 1 (text "FS_OPTIONS") (pos 1000) (reset (some 7)))
on_parameter_comm_example =
    on_parameter_comm 7 7 1 1 (text "FS_OPTIONS") (text "SYSID_MYGCS") (pos 1000) (pos 7000)
      (reset (some 7)) different_names
