-- ===== src/Vehicle/Tests.antt =====
-- The theorems about the vehicle state at a concrete controller.
use onboard_autonomy.Base.{
  ◌+◌, ◌≤◌, ◌≡◌, refl, ◌↔◌, inl, true, false, none, some, [], ◌∷◌, text, arith, ℤ, pos, is_empty,
}
use onboard_autonomy.Fixtures.{sample_doubles}
use onboard_autonomy.Vehicle.State.{
  VehicleState, initial, on_heartbeat, on_status_text, warning_timeout,
}
use onboard_autonomy.Vehicle.Report.{snapshot}
use onboard_autonomy.Vehicle.Armable.{ReadyToArm, armable_iff}
use onboard_autonomy.Vehicle.Reset.{HasNoTelemetry, on_heartbeat-forgets}
use onboard_autonomy.Vehicle.Warnings.{listed, on_status_text-listed}
use onboard_autonomy.Vehicle.History.{heartbeat, battery, status_text, IsSane, run, run-IsSane}

-- Heard at 10 s, with a 3D fix, a good battery and healthy sensors.
abbrev flying : VehicleState ℤ
flying = record {
  last_heartbeat = some 10_000_000_000;
  last_gps = some 9_000_000_000;
  last_global_position = none;
  last_local_position = none;
  last_attitude = some 9_500_000_000;
  last_battery_voltage = some 9_000_000_000;
  last_battery_current = none;
  last_battery_remaining = some 9_000_000_000;
  last_system_status = some 9_000_000_000;
  system_id = some 1;
  component_id = some 1;
  vehicle_type = some 2;
  autopilot_type = some 3;
  system_status = some 4;
  flight_mode = some 4;
  gps_fix_type = some 3;
  satellites_visible = some 11;
  relative_altitude_m = none;
  local_north_m = none;
  local_east_m = none;
  local_down_m = none;
  roll_rad = some (pos 10);
  pitch_rad = some (pos 20);
  yaw_rad = some (pos 30);
  yaw_rate_rad_per_second = some (pos 0);
  battery_voltage_v = some (pos 12600);
  battery_current_a = none;
  battery_remaining_pct = some (pos 80);
  battery_arming_voltage_v = some (pos 11000);
  autopilot_metadata = none;
  sensors_enabled = 33_554_432;
  sensors_healthy = 33_554_432;
  armed = false;
  warnings = [];
}

armable_iff_example :
    ((snapshot 10_500_000_000 flying).1.armable ≡ true) ↔ ReadyToArm 10_500_000_000 flying
armable_iff_example = armable_iff 10_500_000_000 flying

on_heartbeat-forgets_example :
    HasNoTelemetry (snapshot 20_000_000_000 (on_heartbeat 1 1 2 3 0 4 4 20_000_000_000 flying)).1
on_heartbeat-forgets_example =
    on_heartbeat-forgets 1 1 2 3 0 4 4 20_000_000_000 20_000_000_000 flying
      (inl (10_000_000_000, refl, omega arith))

not_empty : is_empty (text "Low battery") ≡ false
unfolding text
not_empty = refl

on_status_text-listed_example :
    (listed
        (text "Low battery")
        (snapshot 8 (on_status_text 3 (text "Low battery") 7 flying)).1.warnings
      ≡ true)
    ↔ (8 ≤ 7 + warning_timeout)
on_status_text-listed_example =
    on_status_text-listed 3 (text "Low battery") 7 8 flying tt not_empty (inl (omega arith))

run-IsSane_example : IsSane (
    run
      (heartbeat 1 1 2 3 0 4 4 5
        ∷ battery (some (pos 12600)) none (some (pos 200)) 6
        ∷ status_text 4 (text "Low battery") 7
        ∷ [])
      initial)
run-IsSane_example = run-IsSane (
    heartbeat 1 1 2 3 0 4 4 5
    ∷ battery (some (pos 12600)) none (some (pos 200)) 6
    ∷ status_text 4 (text "Low battery") 7
    ∷ [])
