-- ===== src/Vehicle/State.antt =====
-- The state of VehicleState and the handlers that write it. The mutex that each handler holds makes
-- it one step. Times are nanoseconds of the steady clock, which never goes below its epoch, so
-- that `now - observed` with a subtraction that stops at 0 passes the same tests as the signed one.
use onboard_autonomy.Base.{
  ℕ, ◌-◌, Bool, false, not, ◌&&◌, ◌||◌, Option, none, some, List, [], ◌∷◌, Text, text, text_eq,
  to_lower, contains, is_empty, map, if◌then◌else◌, ltb, leb, ◌==◌, has_value, any_bit, ℤ, pos,
  negsuc, Floating,
}

abbrev pub heartbeat_timeout : ℕ
heartbeat_timeout = 3_000_000_000

abbrev pub gps_timeout : ℕ
gps_timeout = 5_000_000_000

abbrev pub global_position_timeout : ℕ
global_position_timeout = 2_000_000_000

abbrev pub local_position_timeout : ℕ
local_position_timeout = 2_000_000_000

abbrev pub attitude_timeout : ℕ
attitude_timeout = 2_000_000_000

abbrev pub battery_timeout : ℕ
battery_timeout = 10_000_000_000

abbrev pub system_status_timeout : ℕ
system_status_timeout = 5_000_000_000

abbrev pub warning_timeout : ℕ
warning_timeout = 30_000_000_000

abbrev pub blocking_warning_timeout : ℕ
blocking_warning_timeout = 5_000_000_000

abbrev pub minimum_battery_percent : ℕ
minimum_battery_percent = 20

-- `1U << 25U`
abbrev pub battery_sensor_flag : ℕ
battery_sensor_flag = 33_554_432

abbrev pub safety_armed_flag : ℕ
safety_armed_flag = 128

abbrev pub severity_warning : ℕ
severity_warning = 4

abbrev pub maximum_battery_percent : ℕ
maximum_battery_percent = 100

abbrev pub is_fresh : Option ℕ → ℕ → ℕ → Bool
is_fresh none now timeout = false
is_fresh (some observed_at) now timeout = leb (now - observed_at) timeout

unfoldable pub contains_case_insensitive : Text → Text → Bool
contains_case_insensitive body expected = contains (map to_lower body) expected

unfoldable pub contains_prearm : Text → Bool
contains_prearm body = contains_case_insensitive body (text "prearm:")

unfoldable pub contains_battery : Text → Bool
contains_battery body = contains_case_insensitive body (text "battery")

pub record AutopilotMetadata : Type 0 where
  pub firmware_major : ℕ
  pub firmware_minor : ℕ
  pub firmware_patch : ℕ
  pub firmware_release_type : ℕ
  pub capabilities : ℕ
  pub board_version : ℕ
  pub vendor_id : ℕ
  pub product_id : ℕ

pub record WarningEntry : Type 0 where
  pub body : Text
  pub last_seen : ℕ

pub record VehicleState (D : Type 0) : Type 0 where
  pub last_heartbeat : Option ℕ
  pub last_gps : Option ℕ
  pub last_global_position : Option ℕ
  pub last_local_position : Option ℕ
  pub last_attitude : Option ℕ
  pub last_battery_voltage : Option ℕ
  pub last_battery_current : Option ℕ
  pub last_battery_remaining : Option ℕ
  pub last_system_status : Option ℕ
  pub system_id : Option ℕ
  pub component_id : Option ℕ
  pub vehicle_type : Option ℕ
  pub autopilot_type : Option ℕ
  pub system_status : Option ℕ
  pub flight_mode : Option ℕ
  pub gps_fix_type : Option ℕ
  pub satellites_visible : Option ℕ
  pub relative_altitude_m : Option D
  pub local_north_m : Option D
  pub local_east_m : Option D
  pub local_down_m : Option D
  pub roll_rad : Option D
  pub pitch_rad : Option D
  pub yaw_rad : Option D
  pub yaw_rate_rad_per_second : Option D
  pub battery_voltage_v : Option D
  pub battery_current_a : Option D
  pub battery_remaining_pct : Option ℤ
  pub battery_arming_voltage_v : Option D
  pub autopilot_metadata : Option AutopilotMetadata
  pub sensors_enabled : ℕ
  pub sensors_healthy : ℕ
  pub armed : Bool
  pub warnings : List WarningEntry

-- The entry with this text is seen again; a text that is not there goes to the end.
unfoldable pub see_warning : Text → ℕ → List WarningEntry → List WarningEntry
see_warning body now [] = record { body = body; last_seen = now } ∷ []
see_warning body now (w ∷ ws) =
    let rest = see_warning body now ws in
    if text_eq w.body body then record w { last_seen = now } ∷ ws else w ∷ rest

-- An optional id that is there and is another one.
abbrev pub differs : Option ℕ → ℕ → Bool
differs none b = false
differs (some a) b = not (a == b)

module _ {D : Type 0} where
  unfoldable pub initial : VehicleState D
  initial = record {
    last_heartbeat = none;
    last_gps = none;
    last_global_position = none;
    last_local_position = none;
    last_attitude = none;
    last_battery_voltage = none;
    last_battery_current = none;
    last_battery_remaining = none;
    last_system_status = none;
    system_id = none;
    component_id = none;
    vehicle_type = none;
    autopilot_type = none;
    system_status = none;
    flight_mode = none;
    gps_fix_type = none;
    satellites_visible = none;
    relative_altitude_m = none;
    local_north_m = none;
    local_east_m = none;
    local_down_m = none;
    roll_rad = none;
    pitch_rad = none;
    yaw_rad = none;
    yaw_rate_rad_per_second = none;
    battery_voltage_v = none;
    battery_current_a = none;
    battery_remaining_pct = none;
    battery_arming_voltage_v = none;
    autopilot_metadata = none;
    sensors_enabled = 0;
    sensors_healthy = 0;
    armed = false;
    warnings = [];
  }

  unfoldable pub reset_telemetry : VehicleState D → VehicleState D
  reset_telemetry v = record v {
    last_gps = none;
    last_global_position = none;
    last_local_position = none;
    last_attitude = none;
    last_battery_voltage = none;
    last_battery_current = none;
    last_battery_remaining = none;
    last_system_status = none;
    battery_arming_voltage_v = none;
    autopilot_metadata = none;
    warnings = [];
  }

  -- The controller comes back after a timeout, or is another one.
  unfoldable pub starts_over : ℕ → ℕ → ℕ → VehicleState D → Bool
  starts_over system component now v =
      (has_value v.last_heartbeat && not (is_fresh v.last_heartbeat now heartbeat_timeout))
      || (differs v.system_id system || differs v.component_id component)

  unfoldable pub on_heartbeat : ℕ → ℕ → ℕ → ℕ → ℕ → ℕ → ℕ → ℕ → VehicleState D → VehicleState D
  on_heartbeat system component vehicle autopilot base_mode custom_mode status now v =
      record (if starts_over system component now v then reset_telemetry v else v) {
        last_heartbeat = some now;
        system_id = some system;
        component_id = some component;
        vehicle_type = some vehicle;
        autopilot_type = some autopilot;
        system_status = some status;
        flight_mode = some custom_mode;
        armed = any_bit base_mode safety_armed_flag;
      }

  unfoldable pub on_gps : ℕ → ℕ → ℕ → VehicleState D → VehicleState D
  on_gps fix_type satellites now v = record v {
    last_gps = some now;
    gps_fix_type = some fix_type;
    satellites_visible = some satellites;
  }

  unfoldable pub on_autopilot_metadata : AutopilotMetadata → VehicleState D → VehicleState D
  on_autopilot_metadata metadata v = record v { autopilot_metadata = some metadata }

  unfoldable pub on_status_text : ℕ → Text → ℕ → VehicleState D → VehicleState D
  on_status_text severity body now v =
      if is_empty body || (ltb severity_warning severity && not (contains_prearm body))
      then v
      else record v { warnings = see_warning body now v.warnings }

abbrev pub percent_in_range : ℤ → Bool
percent_in_range (pos n) = leb n maximum_battery_percent
percent_in_range (negsuc n) = false

module _ {D : Type 0} ⦃fp : Floating D⦄ where
  unfoldable pub on_global_position : ℤ → ℕ → VehicleState D → VehicleState D
  on_global_position altitude_mm now v = record v {
    last_global_position = some now;
    relative_altitude_m = some (fp.div (fp.of_int altitude_mm) (fp.of_int (pos 1000)));
  }

  unfoldable pub on_local_position : ℕ → ℕ → ℕ → ℕ → VehicleState D → VehicleState D
  on_local_position north east down now v = record v {
    last_local_position = some now;
    local_north_m = some (fp.widen north);
    local_east_m = some (fp.widen east);
    local_down_m = some (fp.widen down);
  }

  unfoldable pub on_attitude : ℕ → ℕ → ℕ → ℕ → ℕ → VehicleState D → VehicleState D
  on_attitude roll pitch yaw yaw_rate now v = record v {
    last_attitude = some now;
    roll_rad = some (fp.widen roll);
    pitch_rad = some (fp.widen pitch);
    yaw_rad = some (fp.widen yaw);
    yaw_rate_rad_per_second = some (fp.widen yaw_rate);
  }

  update_voltage : Option D → ℕ → VehicleState D → VehicleState D
  update_voltage none now v = v
  update_voltage (some x) now v =
      if fp.is_finite x && fp.flt (fp.of_int (pos 0)) x
      then record v { battery_voltage_v = some x; last_battery_voltage = some now }
      else v

  update_current : Option D → ℕ → VehicleState D → VehicleState D
  update_current none now v = v
  update_current (some x) now v =
      if fp.is_finite x && fp.fle (fp.of_int (pos 0)) x
      then record v { battery_current_a = some x; last_battery_current = some now }
      else v

  update_remaining : Option ℤ → ℕ → VehicleState D → VehicleState D
  update_remaining none now v = v
  update_remaining (some p) now v =
      if percent_in_range p
      then record v { battery_remaining_pct = some p; last_battery_remaining = some now }
      else v

  unfoldable pub update_battery :
      Option D → Option D → Option ℤ → ℕ → VehicleState D → VehicleState D
  unfolding update_voltage update_current update_remaining
  update_battery voltage current remaining now v =
      update_remaining remaining now (update_current current now (update_voltage voltage now v))

  unfoldable pub on_battery : Option D → Option D → Option ℤ → ℕ → VehicleState D → VehicleState D
  on_battery = update_battery

  unfoldable pub on_battery_arming_voltage : D → ℕ → VehicleState D → VehicleState D
  on_battery_arming_voltage voltage now v = record v {
    battery_arming_voltage_v =
        some (if fp.flt (fp.of_int (pos 0)) voltage then voltage else fp.of_int (pos 0));
  }

  unfoldable pub on_system_status :
      ℕ → ℕ → Option D → Option D → Option ℤ → ℕ → VehicleState D → VehicleState D
  on_system_status enabled healthy voltage current remaining now v =
      let w = record v {
        sensors_enabled = enabled;
        sensors_healthy = healthy;
        last_system_status = some now;
      } in
      if has_value voltage || (has_value current || has_value remaining)
      then update_battery voltage current remaining now w
      else w
