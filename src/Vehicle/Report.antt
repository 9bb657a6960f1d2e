-- ===== src/Vehicle/Report.antt =====
-- VehicleSnapshot.hpp and `VehicleState::snapshot`.
use Prim.Native.Nat.{bit_and}
use onboard_autonomy.Base.{
  ℕ, ◌-◌, Bool, true, false, not, ◌&&◌, ◌||◌, Option, none, some, List, Text, map, if◌then◌else◌,
  ltb, leb, ◌==◌, any_bit, ℤ, pos, negsuc, Floating, keep, any,
}
use onboard_autonomy.Vehicle.State.{
  VehicleState, WarningEntry, AutopilotMetadata, is_fresh, contains_battery, heartbeat_timeout,
  gps_timeout, global_position_timeout, local_position_timeout, attitude_timeout, battery_timeout,
  system_status_timeout, warning_timeout, blocking_warning_timeout, minimum_battery_percent,
  battery_sensor_flag,
}

pub record VehicleSnapshot (D : Type 0) : Type 0 where
  pub connected : Bool
  pub gps_ready : Bool
  pub navigation_ready : Bool
  pub battery_ready : Bool
  pub system_health_known : Bool
  pub system_health_ok : Bool
  pub armable : Bool
  pub armed : Bool
  pub system_id : Option ℕ
  pub component_id : Option ℕ
  pub vehicle_type : Option ℕ
  pub autopilot_type : Option ℕ
  pub system_status : Option ℕ
  pub flight_mode : Option ℕ
  pub gps_fix_type : Option ℕ
  pub satellites_visible : Option ℕ
  pub relative_altitude_m : Option D
  pub local_north_m : Option D
  pub local_east_m : Option D
  pub local_down_m : Option D
  pub roll_rad : Option D
  pub pitch_rad : Option D
  pub yaw_rad : Option D
  pub yaw_rate_rad_per_second : Option D
  pub battery_voltage_v : Option D
  pub battery_current_a : Option D
  pub battery_remaining_pct : Option ℤ
  pub battery_arming_voltage_v : Option D
  pub autopilot_metadata : Option AutopilotMetadata
  pub warnings : List Text

-- A value, where it is fresh enough to be reported.
abbrev pub when {ℓ} : {A : Type ℓ} → Bool → Option A → Option A
when true o = o
when false o = none

abbrev pub fix_is_3d : Option ℕ → Bool
fix_is_3d none = false
fix_is_3d (some fix_type) = leb 3 fix_type

-- `!has_value() || *remaining >= kMinimumBatteryPercent`
abbrev pub charge_suffices : Option ℤ → Bool
charge_suffices none = true
charge_suffices (some (pos n)) = leb minimum_battery_percent n
charge_suffices (some (negsuc n)) = false

-- `std::erase_if` over the warnings: those not seen for longer than the timeout go.
unfoldable pub recent_warnings : ℕ → List WarningEntry → List WarningEntry
recent_warnings now = keep λ w. not (ltb warning_timeout (now - w.last_seen))

-- `~healthy` on 32 bits is the complement to 2^32 - 1.
abbrev pub all_sensors_healthy : ℕ → ℕ → Bool
all_sensors_healthy enabled healthy = bit_and enabled (4_294_967_295 - healthy) == 0

module _ {D : Type 0} where
  unfoldable pub is_connected : ℕ → VehicleState D → Bool
  is_connected now v = is_fresh v.last_heartbeat now heartbeat_timeout

  -- What the snapshot holds of a controller, connected or not.
  unfoldable pub identity : Bool → VehicleState D → VehicleSnapshot D
  identity connected v = record {
    connected = connected;
    gps_ready = false;
    navigation_ready = false;
    battery_ready = false;
    system_health_known = false;
    system_health_ok = false;
    armable = false;
    armed = v.armed;
    system_id = v.system_id;
    component_id = v.component_id;
    vehicle_type = v.vehicle_type;
    autopilot_type = v.autopilot_type;
    system_status = v.system_status;
    flight_mode = v.flight_mode;
    gps_fix_type = none;
    satellites_visible = none;
    relative_altitude_m = none;
    local_north_m = none;
    local_east_m = none;
    local_down_m = none;
    roll_rad = none;
    pitch_rad = none;
    yaw_rad = none;
    yaw_rate_rad_per_second = none;
    battery_voltage_v = none;
    battery_current_a = none;
    battery_remaining_pct = none;
    battery_arming_voltage_v = none;
    autopilot_metadata = v.autopilot_metadata;
    warnings = map (λ w. w.body) v.warnings;
  }

  unfoldable pub gps_ready_at : ℕ → VehicleState D → Bool
  gps_ready_at now v = is_fresh v.last_gps now gps_timeout && fix_is_3d v.gps_fix_type

  unfoldable pub battery_sensor_ok : ℕ → VehicleState D → Bool
  battery_sensor_ok now v =
      is_fresh v.last_system_status now system_status_timeout
      && (any_bit v.sensors_enabled battery_sensor_flag
          && any_bit v.sensors_healthy battery_sensor_flag)

  unfoldable pub health_ok : ℕ → VehicleState D → Bool
  health_ok now v =
      is_fresh v.last_system_status now system_status_timeout
      && all_sensors_healthy v.sensors_enabled v.sensors_healthy

  unfoldable pub has_blocking_warning : ℕ → VehicleState D → Bool
  has_blocking_warning now v =
      any (λ w. leb (now - w.last_seen) blocking_warning_timeout) v.warnings

module _ {D : Type 0} ⦃fp : Floating D⦄ where
  abbrev pub meets_threshold : Option D → Option D → Bool
  meets_threshold none threshold = false
  meets_threshold (some voltage) none = false
  meets_threshold (some voltage) (some threshold) =
      fp.feq threshold (fp.of_int (pos 0)) || fp.fle threshold voltage

  unfoldable pub battery_ready_at : ℕ → VehicleState D → Bool
  battery_ready_at now v =
      is_fresh v.last_battery_voltage now battery_timeout
      && (meets_threshold v.battery_voltage_v v.battery_arming_voltage_v
          && (battery_sensor_ok now v
              && (not (any (λ w. contains_battery w.body) v.warnings)
                  && charge_suffices (
                      when (is_fresh v.last_battery_remaining now battery_timeout)
                        v.battery_remaining_pct))))

  -- The rest of the snapshot of a connected controller.
  unfoldable pub telemetry : ℕ → VehicleState D → VehicleSnapshot D
  unfolding identity
  telemetry now v =
      let gps_fresh = is_fresh v.last_gps now gps_timeout in
      let position_fresh = is_fresh v.last_local_position now local_position_timeout in
      let attitude_fresh = is_fresh v.last_attitude now attitude_timeout in
      let voltage_fresh = is_fresh v.last_battery_voltage now battery_timeout in
      record (identity true v) {
        gps_fix_type = when gps_fresh v.gps_fix_type;
        satellites_visible = when gps_fresh v.satellites_visible;
        gps_ready = gps_ready_at now v;
        navigation_ready = gps_ready_at now v;
        relative_altitude_m =
            when (is_fresh v.last_global_position now global_position_timeout)
              v.relative_altitude_m;
        local_north_m = when position_fresh v.local_north_m;
        local_east_m = when position_fresh v.local_east_m;
        local_down_m = when position_fresh v.local_down_m;
        roll_rad = when attitude_fresh v.roll_rad;
        pitch_rad = when attitude_fresh v.pitch_rad;
        yaw_rad = when attitude_fresh v.yaw_rad;
        yaw_rate_rad_per_second = when attitude_fresh v.yaw_rate_rad_per_second;
        battery_current_a =
            when (is_fresh v.last_battery_current now battery_timeout) v.battery_current_a;
        battery_remaining_pct =
            when (is_fresh v.last_battery_remaining now battery_timeout) v.battery_remaining_pct;
        battery_voltage_v = when voltage_fresh v.battery_voltage_v;
        battery_arming_voltage_v = when voltage_fresh v.battery_arming_voltage_v;
        battery_ready = battery_ready_at now v;
        system_health_known = is_fresh v.last_system_status now system_status_timeout;
        system_health_ok = health_ok now v;
        armable =
            gps_ready_at now v
            && (battery_ready_at now v && (health_ok now v && not (has_blocking_warning now v)));
      }

  -- The state with its old warnings erased, and the snapshot taken of it.
  unfoldable pub snapshot : ℕ → VehicleState D → VehicleState D × VehicleSnapshot D
  snapshot now v =
      let w = record v { warnings = recent_warnings now v.warnings } in
      (w, if is_connected now w then telemetry now w else identity false w)
