-- ===== src/Mavlink/Messages.antt =====
-- Decoded MAVLink messages, as the generated library hands them to the decoder, and the values that
-- the decoder passes on (CommandAck.hpp, ParameterValue.hpp, MavlinkDecoder.hpp).
use onboard_autonomy.Base.{ℕ, ℤ, List, Text}

-- The fields of each payload that the decoder reads; a `float` is its 32-bit pattern.
pub record Heartbeat : Type 0 where
  pub vehicle_type : ℕ
  pub autopilot : ℕ
  pub base_mode : ℕ
  pub custom_mode : ℕ
  pub system_status : ℕ

pub record BatteryStatus : Type 0 where
  pub voltages : List ℕ
  pub voltages_ext : List ℕ
  pub current_battery : ℤ
  pub battery_remaining : ℤ

pub record SysStatus : Type 0 where
  pub sensors_enabled : ℕ
  pub sensors_health : ℕ
  pub voltage_battery : ℕ
  pub current_battery : ℤ
  pub battery_remaining : ℤ

pub record AutopilotVersion : Type 0 where
  pub flight_sw_version : ℕ
  pub capabilities : ℕ
  pub board_version : ℕ
  pub vendor_id : ℕ
  pub product_id : ℕ

pub record Ack : Type 0 where
  pub command : ℕ
  pub result : ℕ
  pub progress : ℕ
  pub result_param2 : ℤ
  pub target_system : ℕ
  pub target_component : ℕ

-- One constructor for each message id that the decoder handles; `other` holds any other id.
pub data Payload : Type 0 where
  heartbeat : Heartbeat → Payload
  -- fix type, satellites
  gps_raw_int : ℕ → ℕ → Payload
  -- relative altitude in millimetres
  global_position_int : ℤ → Payload
  -- x, y, z
  local_position_ned : ℕ → ℕ → ℕ → Payload
  -- roll, pitch, yaw, yaw speed
  attitude : ℕ → ℕ → ℕ → ℕ → Payload
  battery_status : BatteryStatus → Payload
  sys_status : SysStatus → Payload
  autopilot_version : AutopilotVersion → Payload
  -- the `char[16]` id, the value, the type
  param_value : List ℕ → ℕ → ℕ → Payload
  -- severity, the `char[50]` text
  statustext : ℕ → List ℕ → Payload
  command_ack : Ack → Payload
  other : ℕ → Payload

pub record Message : Type 0 where
  pub msgid : ℕ
  pub sysid : ℕ
  pub compid : ℕ
  pub payload : Payload

pub record CommandAck : Type 0 where
  pub source_system : ℕ
  pub source_component : ℕ
  pub command : ℕ
  pub result : ℕ
  pub progress : ℕ
  pub result_parameter : ℤ
  pub target_system : ℕ
  pub target_component : ℕ

pub record ParameterValue (D : Type 0) : Type 0 where
  pub source_system : ℕ
  pub source_component : ℕ
  pub id : Text
  pub value : D
  pub type : ℕ

pub record MessageObservation : Type 0 where
  pub message_id : ℕ
  pub source_system : ℕ
  pub source_component : ℕ
  pub message_name : Text
