-- ===== src/Vehicle/History.antt =====
-- Histories of the handlers of VehicleState.cpp and of snapshots, and the sane states.
use onboard_autonomy.Base.{
  ℕ, ◌≤◌, ◌≡◌, true, Option, none, some, List, [], ◌∷◌, arith, Text, ℤ, pos, negsuc, Floating,
}
use onboard_autonomy.Vehicle.State.{
  VehicleState, AutopilotMetadata, initial, on_heartbeat, on_gps, on_global_position,
  on_local_position, on_attitude, on_battery, on_battery_arming_voltage, on_autopilot_metadata,
  on_system_status, on_status_text, update_battery, reset_telemetry,
}
use onboard_autonomy.Vehicle.Report.{snapshot}
use onboard_autonomy.Vehicle.Warnings.{Distinct, see_warning-Distinct, recent_warnings-Distinct}

pub data Update (D : Type 0) : Type 0 where
  -- system, component, type, autopilot, base mode, custom mode, status, time
  heartbeat : ℕ → ℕ → ℕ → ℕ → ℕ → ℕ → ℕ → ℕ → Update D
  gps : ℕ → ℕ → ℕ → Update D
  global_position : ℤ → ℕ → Update D
  local_position : ℕ → ℕ → ℕ → ℕ → Update D
  attitude : ℕ → ℕ → ℕ → ℕ → ℕ → Update D
  battery : Option D → Option D → Option ℤ → ℕ → Update D
  battery_arming_voltage : D → ℕ → Update D
  autopilot_metadata : AutopilotMetadata → Update D
  system_status : ℕ → ℕ → Option D → Option D → Option ℤ → ℕ → Update D
  status_text : ℕ → Text → ℕ → Update D
  observed : ℕ → Update D

abbrev pub SanePercent : Option ℤ → Type 0
SanePercent none = Unit
SanePercent (some (pos n)) = n ≤ 100
SanePercent (some (negsuc n)) = ⊥

module _ {D : Type 0} ⦃fp : Floating D⦄ where
  unfoldable pub apply : Update D → VehicleState D → VehicleState D
  apply (heartbeat s c t a b m st now) v = on_heartbeat s c t a b m st now v
  apply (gps fix satellites now) v = on_gps fix satellites now v
  apply (global_position mm now) v = on_global_position mm now v
  apply (local_position n e d now) v = on_local_position n e d now v
  apply (attitude r p y rate now) v = on_attitude r p y rate now v
  apply (battery voltage current remaining now) v = on_battery voltage current remaining now v
  apply (battery_arming_voltage voltage now) v = on_battery_arming_voltage voltage now v
  apply (autopilot_metadata m) v = on_autopilot_metadata m v
  apply (system_status e h voltage current remaining now) v =
      on_system_status e h voltage current remaining now v
  apply (status_text severity body now) v = on_status_text severity body now v
  apply (observed now) v = (snapshot now v).0

  unfoldable pub run : List (Update D) → VehicleState D → VehicleState D
  run [] v = v
  run (u ∷ us) v = run us (apply u v)

  -- A voltage is finite and positive, a current finite and not negative.
  abbrev pub SaneVoltage : Option D → Type 0
  SaneVoltage none = Unit
  SaneVoltage (some x) = (fp.is_finite x ≡ true) × (fp.flt (fp.of_int (pos 0)) x ≡ true)

  abbrev pub SaneCurrent : Option D → Type 0
  SaneCurrent none = Unit
  SaneCurrent (some x) = (fp.is_finite x ≡ true) × (fp.fle (fp.of_int (pos 0)) x ≡ true)

  pub record IsSane (v : VehicleState D) : Type 0 where
    pub voltage : SaneVoltage v.battery_voltage_v
    pub current : SaneCurrent v.battery_current_a
    pub remaining : SanePercent v.battery_remaining_pct
    pub distinct : Distinct v.warnings

  initial-IsSane : IsSane initial
  unfolding initial
  initial-IsSane = ground arith

  update_battery-IsSane :
      (x i : Option D) (p : Option ℤ) (now : ℕ) (v : VehicleState D)
      → IsSane v
      → IsSane (update_battery x i p now v)
  unfolding update_battery
  update_battery-IsSane x i p now v s = ground arith

  apply-IsSane : (u : Update D) (v : VehicleState D) → IsSane v → IsSane (apply u v)
  unfolding apply
  apply-IsSane (heartbeat sys c t a b m st now) v s =
      unfold on_heartbeat reset_telemetry in ground arith
  apply-IsSane (battery voltage current remaining now) v s =
      unfold on_battery in update_battery-IsSane voltage current remaining now v s
  apply-IsSane (system_status e h voltage current remaining now) v s =
      unfold on_system_status in
      ground (
        arith,
        update_battery-IsSane voltage current remaining now
            (record v { sensors_enabled = e; sensors_healthy = h; last_system_status = some now }),
      )
  apply-IsSane (status_text severity body now) v s =
      unfold on_status_text in ground (arith, see_warning-Distinct body now v.warnings s.distinct)
  apply-IsSane (observed now) v s =
      unfold snapshot in ground (arith, recent_warnings-Distinct now v.warnings s.distinct)
  apply-IsSane (gps fix satellites now) v s = unfold on_gps in ground arith
  apply-IsSane (global_position mm now) v s = unfold on_global_position in ground arith
  apply-IsSane (local_position n e d now) v s = unfold on_local_position in ground arith
  apply-IsSane (attitude r p y rate now) v s = unfold on_attitude in ground arith
  apply-IsSane (battery_arming_voltage x now) v s = unfold on_battery_arming_voltage in ground arith
  apply-IsSane (autopilot_metadata m) v s = unfold on_autopilot_metadata in ground arith

  run_from-IsSane : (us : List (Update D)) (v : VehicleState D) → IsSane v → IsSane (run us v)
  unfolding run
  run_from-IsSane [] v s = s
  run_from-IsSane (u ∷ us) v s = run_from-IsSane us (apply u v) (apply-IsSane u v s)

  -- After any history the stored voltage, if any, is finite and positive, the current finite and not
  -- negative, the charge from 0 to 100 percent, and no two warnings have the same text.
  pub run-IsSane : (us : List (Update D)) → IsSane (run us initial)
  run-IsSane us = run_from-IsSane us initial initial-IsSane
