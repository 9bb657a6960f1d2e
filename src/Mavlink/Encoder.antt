-- ===== src/Mavlink/Encoder.antt =====
-- MavlinkEncoder (src/hardware/mavlink/MavlinkEncoder.cpp). Packing a message and serialising it
-- to bytes is the MAVLink library's, the parameter `pack`.
use onboard_autonomy.Base.{
  ℕ, ◌||◌, List, [], ◌∷◌, Text, text, length, is_empty, ltb, if◌then◌else◌, Outcome, returned,
  thrown, invalid_argument,
}
use onboard_autonomy.Mavlink.Protocol.{
  mav_cmd_set_message_interval, mav_cmd_request_message, mav_type_onboard_controller,
  mav_autopilot_invalid, mav_state_active, mav_comp_id_autopilot1, msg_id_autopilot_version,
}

abbrev pub Bytes : Type 0
Bytes = List ℕ

-- What the encoder hands to the library's `mavlink_msg_*_pack`. The `float` parameters of a command
-- are integers below 2^24 at every caller, which a `float` holds exactly: they stand as integers.
pub data Outgoing : Type 0 where
  -- system, component, type, autopilot, base mode, custom mode, system status
  heartbeat : ℕ → ℕ → ℕ → ℕ → ℕ → ℕ → ℕ → Outgoing
  -- system, component, target system, target component, command, confirmation, parameters 1 to 7
  command_long : ℕ → ℕ → ℕ → ℕ → ℕ → ℕ → List ℕ → Outgoing
  -- system, component, target system, target component, parameter id; the index is -1
  param_request_read : ℕ → ℕ → ℕ → ℕ → Text → Outgoing

abbrev pub companion_component_id : ℕ
companion_component_id = 191

abbrev pub maximum_parameter_id_length : ℕ
maximum_parameter_id_length = 16

module _ (pack : Outgoing → Bytes) where
  unfoldable pub encode_command_long : ℕ → ℕ → ℕ → ℕ → List ℕ → Bytes
  encode_command_long vehicle_system_id component_id command confirmation parameters = pack (
      command_long vehicle_system_id component_id vehicle_system_id 0 command confirmation
        parameters)

  unfoldable pub encode_companion_heartbeat : ℕ → ℕ → Bytes
  encode_companion_heartbeat system_id component_id = pack (
      heartbeat system_id component_id mav_type_onboard_controller mav_autopilot_invalid 0 0
        mav_state_active)

  unfoldable pub encode_set_message_interval : ℕ → ℕ → ℕ → ℕ → ℕ → Bytes
  unfolding encode_command_long
  encode_set_message_interval vehicle_system_id message_id interval_us confirmation component_id =
      encode_command_long vehicle_system_id component_id mav_cmd_set_message_interval confirmation
        (message_id ∷ interval_us ∷ 0 ∷ 0 ∷ 0 ∷ 0 ∷ 0 ∷ [])

  unfoldable pub encode_parameter_request_read : ℕ → Text → ℕ → Outcome Bytes
  encode_parameter_request_read vehicle_system_id parameter_id component_id =
      if is_empty parameter_id || ltb maximum_parameter_id_length (length parameter_id)
      then thrown (invalid_argument (text "MAVLink parameter id must contain 1 to 16 characters"))
      else returned (
          pack (
            param_request_read vehicle_system_id component_id vehicle_system_id
              mav_comp_id_autopilot1 parameter_id))

  unfoldable pub encode_battery_arming_voltage_request : ℕ → ℕ → Outcome Bytes
  unfolding encode_parameter_request_read
  encode_battery_arming_voltage_request vehicle_system_id component_id =
      encode_parameter_request_read vehicle_system_id (text "BATT_ARM_VOLT") component_id

  unfoldable pub encode_autopilot_version_request : ℕ → ℕ → Bytes
  unfolding encode_command_long
  encode_autopilot_version_request vehicle_system_id component_id =
      encode_command_long vehicle_system_id component_id mav_cmd_request_message 0
        (msg_id_autopilot_version ∷ 0 ∷ 0 ∷ 0 ∷ 0 ∷ 0 ∷ 1 ∷ [])
