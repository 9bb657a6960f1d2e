-- ===== src/App/Names.antt =====
-- The names of commands, results and flight modes (the first half of CompanionApplication.cpp).
use onboard_autonomy.Base.{ℕ, Text, text, to_string, ◌++◌, if◌then◌else◌, ◌==◌, starts_with, drop}
use onboard_autonomy.Mavlink.Protocol.{
  mav_result_accepted, mav_result_temporarily_rejected, mav_result_denied, mav_result_unsupported,
  mav_result_failed, mav_result_in_progress, mav_result_cancelled, mav_cmd_set_message_interval,
  mav_cmd_request_message, mav_cmd_do_set_mode, mav_cmd_component_arm_disarm, mav_cmd_nav_takeoff,
  mav_cmd_nav_land, mav_cmd_nav_return_to_launch, mav_cmd_condition_yaw,
}
use onboard_autonomy.Telemetry

pub data LinkEventDirection : Type 0 where
  outbound inbound : LinkEventDirection

pub data LinkEventStatus : Type 0 where
  neutral pending success warning failure : LinkEventStatus

pub data TelemetrySetupState : Type 0 where
  setup_waiting setup_configuring setup_active setup_failed : TelemetrySetupState

unfoldable pub map_telemetry_state : Telemetry.Phase → TelemetrySetupState
map_telemetry_state Telemetry.waiting_for_vehicle = setup_waiting
map_telemetry_state Telemetry.configuring = setup_configuring
map_telemetry_state Telemetry.active = setup_active
map_telemetry_state Telemetry.failed = setup_failed

unfoldable pub map_event_status : ℕ → LinkEventStatus
map_event_status result =
    if result == mav_result_accepted
    then success
    else if result == mav_result_in_progress
    then pending
    else if result == mav_result_temporarily_rejected
    then warning
    else failure

unfoldable pub ack_result_name : ℕ → Text
ack_result_name result =
    if result == mav_result_accepted
    then text "ACCEPTED"
    else if result == mav_result_temporarily_rejected
    then text "TEMPORARILY REJECTED"
    else if result == mav_result_denied
    then text "DENIED"
    else if result == mav_result_unsupported
    then text "UNSUPPORTED"
    else if result == mav_result_failed
    then text "FAILED"
    else if result == mav_result_in_progress
    then text "IN PROGRESS"
    else if result == mav_result_cancelled
    then text "CANCELLED"
    else text "MAV_RESULT " ++ to_string result

unfoldable pub mav_command_name : ℕ → Text
mav_command_name command =
    if command == mav_cmd_set_message_interval
    then text "ACK SET_INTERVAL"
    else if command == mav_cmd_request_message
    then text "ACK REQUEST_VERSION"
    else if command == mav_cmd_do_set_mode
    then text "ACK SET_MODE"
    else if command == mav_cmd_component_arm_disarm
    then text "ACK ARM"
    else if command == mav_cmd_nav_takeoff
    then text "ACK TAKEOFF"
    else if command == mav_cmd_nav_land
    then text "ACK LAND"
    else if command == mav_cmd_nav_return_to_launch
    then text "ACK RTL"
    else if command == mav_cmd_condition_yaw
    then text "ACK YAW"
    else text "ACK COMMAND " ++ to_string command

unfoldable pub command_ack_activity_detail : ℕ → ℕ → Text
command_ack_activity_detail command result =
    let name = mav_command_name command in
    (if starts_with name (text "ACK ") then drop 4 name else name)
    ++ (text " " ++ ack_result_name result)

unfoldable pub flight_mode_name : ℕ → Text
flight_mode_name mode =
    if mode == 0
    then text "STABILIZE"
    else if mode == 3
    then text "AUTO"
    else if mode == 4
    then text "GUIDED"
    else if mode == 5
    then text "LOITER"
    else if mode == 6
    then text "RTL"
    else if mode == 9
    then text "LAND"
    else if mode == 16
    then text "POSITION HOLD"
    else text "MODE " ++ to_string mode
