-- ===== src/Vehicle/Reset.antt =====
-- `VehicleState::snapshot` against the ages of what it reports, and the part of `on_heartbeat` that starts
-- over.
use onboard_autonomy.Base.{
  ℕ, ◌+◌, ◌<◌, ◌⊎◌, ◌≢◌, ◌≡◌, ◌↔◌, Bool, true, false, ◌&&◌, Option, none, some, [], any, leb, arith,
  inl, inr, Text, text_eq, Floating,
}
use onboard_autonomy.Vehicle.State.{
  VehicleState, WarningEntry, warning_timeout, system_status_timeout, heartbeat_timeout,
  gps_timeout, global_position_timeout, local_position_timeout, attitude_timeout, battery_timeout,
  starts_over, reset_telemetry, on_heartbeat,
}
use onboard_autonomy.Vehicle.Report.{
  VehicleSnapshot, snapshot, recent_warnings, identity, telemetry, gps_ready_at, battery_ready_at,
  health_ok,
}
use onboard_autonomy.Vehicle.Warnings.{listed}
use onboard_autonomy.Vehicle.Armable.{Within}

-- The warning has the text, and was seen no longer ago than the timeout.
abbrev pub seen_lately : Text → ℕ → WarningEntry → Bool
seen_lately body now w = text_eq w.body body && leb now (w.last_seen + warning_timeout)

-- A snapshot with no value of the controller's telemetry, and ready for nothing.
abbrev pub HasNoTelemetry : {D : Type 0} → VehicleSnapshot D → Type 0
HasNoTelemetry s =
    (s.gps_fix_type ≡ none)
    × (s.satellites_visible ≡ none)
    × (s.relative_altitude_m ≡ none)
    × (s.local_north_m ≡ none)
    × (s.local_east_m ≡ none)
    × (s.local_down_m ≡ none)
    × (s.roll_rad ≡ none)
    × (s.pitch_rad ≡ none)
    × (s.yaw_rad ≡ none)
    × (s.yaw_rate_rad_per_second ≡ none)
    × (s.battery_voltage_v ≡ none)
    × (s.battery_current_a ≡ none)
    × (s.battery_remaining_pct ≡ none)
    × (s.battery_arming_voltage_v ≡ none)
    × (s.autopilot_metadata ≡ none)
    × (s.warnings ≡ [])
    × (s.gps_ready ≡ false)
    × (s.navigation_ready ≡ false)
    × (s.battery_ready ≡ false)
    × (s.system_health_known ≡ false)
    × (s.system_health_ok ≡ false)
    × (s.armable ≡ false)

module _ {D : Type 0} ⦃fp : Floating D⦄ where
  -- A reported value is the one that is stored; it was observed, and a heartbeat came, no longer ago
  -- than their timeouts.
  abbrev pub Shown {ℓ} :
      {A : Type ℓ} → ℕ → VehicleState D → ℕ → Option ℕ → Option A → Option A → Type ℓ
  Shown {A = A} now v timeout observed stored reported =
      (x : A)
      → reported ≡ some x
      → (stored ≡ some x)
        × Within heartbeat_timeout v.last_heartbeat now
        × Within timeout observed now

  -- A snapshot `s` of the state `v` at `now`: what it reports, and how old that may be.
  pub record IsCurrent (now : ℕ) (v : VehicleState D) (s : VehicleSnapshot D) : Type 0 where
    pub gps : Shown now v gps_timeout v.last_gps v.gps_fix_type s.gps_fix_type
    pub satellites : Shown now v gps_timeout v.last_gps v.satellites_visible s.satellites_visible
    pub altitude :
        Shown now v global_position_timeout v.last_global_position v.relative_altitude_m
          s.relative_altitude_m
    pub north :
        Shown now v local_position_timeout v.last_local_position v.local_north_m s.local_north_m
    pub east :
        Shown now v local_position_timeout v.last_local_position v.local_east_m s.local_east_m
    pub down :
        Shown now v local_position_timeout v.last_local_position v.local_down_m s.local_down_m
    pub roll : Shown now v attitude_timeout v.last_attitude v.roll_rad s.roll_rad
    pub pitch : Shown now v attitude_timeout v.last_attitude v.pitch_rad s.pitch_rad
    pub yaw : Shown now v attitude_timeout v.last_attitude v.yaw_rad s.yaw_rad
    pub yaw_rate :
        Shown now v attitude_timeout v.last_attitude v.yaw_rate_rad_per_second
          s.yaw_rate_rad_per_second
    pub voltage :
        Shown now v battery_timeout v.last_battery_voltage v.battery_voltage_v s.battery_voltage_v
    pub arming_voltage :
        Shown now v battery_timeout v.last_battery_voltage v.battery_arming_voltage_v
          s.battery_arming_voltage_v
    pub current :
        Shown now v battery_timeout v.last_battery_current v.battery_current_a s.battery_current_a
    pub remaining :
        Shown now v battery_timeout v.last_battery_remaining v.battery_remaining_pct
          s.battery_remaining_pct
    pub connection : (s.connected ≡ true) ↔ Within heartbeat_timeout v.last_heartbeat now
    pub gps_ready : s.gps_ready ≡ true → Within gps_timeout v.last_gps now
    pub navigation_ready : s.navigation_ready ≡ true → Within gps_timeout v.last_gps now
    pub battery_ready : s.battery_ready ≡ true → Within battery_timeout v.last_battery_voltage now
    pub health_known :
        s.system_health_known ≡ true → Within system_status_timeout v.last_system_status now
    pub health_ok :
        s.system_health_ok ≡ true → Within system_status_timeout v.last_system_status now
    pub armable :
        s.armable ≡ true
        → Within gps_timeout v.last_gps now
          × Within battery_timeout v.last_battery_voltage now
          × Within system_status_timeout v.last_system_status now
    pub silence :
        s.connected ≡ false
        → (s.gps_ready ≡ false)
          × (s.navigation_ready ≡ false)
          × (s.battery_ready ≡ false)
          × (s.system_health_known ≡ false)
          × (s.system_health_ok ≡ false)
          × (s.armable ≡ false)
    pub warnings : (body : Text) → listed body s.warnings ≡ any (seen_lately body now) v.warnings

  -- The state with its old warnings erased.
  abbrev erased : ℕ → VehicleState D → VehicleState D
  erased now v = record v { warnings = recent_warnings now v.warnings }

  -- The last heartbeat is older than the timeout, or came from another system or component.
  abbrev pub StartsOver : ℕ → ℕ → ℕ → VehicleState D → Type 0
  StartsOver system component now v =
      ((t : ℕ) × (v.last_heartbeat ≡ some t) × (t + heartbeat_timeout < now))
      ⊎ (((s : ℕ) × (v.system_id ≡ some s) × (s ≢ system))
          ⊎ ((c : ℕ) × (v.component_id ≡ some c) × (c ≢ component)))

  starts_over-StartsOver :
      (system component now : ℕ) (v : VehicleState D)
      → StartsOver system component now v
      → starts_over system component now v ≡ true
  unfolding starts_over
  starts_over-StartsOver system component now v (inl (t, e, h)) = rw e (ground arith)
  starts_over-StartsOver system component now v (inr (inl (s, e, n))) = rw e (ground arith)
  starts_over-StartsOver system component now v (inr (inr (c, e, n))) = rw e (ground arith)

  -- A snapshot taken at any time of the state right after a heartbeat that came later than the timeout
  -- after the last one, or from another system or component, has no telemetry value, no metadata and no
  -- warning, and is ready for nothing.
  pub on_heartbeat-forgets :
      (system component vehicle autopilot mode custom status now later : ℕ) (v : VehicleState D)
      → StartsOver system component now v
      → HasNoTelemetry
          (snapshot later
            (on_heartbeat system component vehicle autopilot mode custom status now v)).1
  unfolding snapshot on_heartbeat reset_telemetry telemetry identity gps_ready_at battery_ready_at
      health_ok recent_warnings
  on_heartbeat-forgets system component vehicle autopilot mode custom status now later v h =
      ground (arith, starts_over-StartsOver system component now v h)
