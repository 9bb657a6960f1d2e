-- ===== src/Mavlink/Protocol.antt =====
-- Numbers of the MAVLink common message set that the program names. The generated C library that
-- defines them is fetched by the build; these are the values that the protocol publishes.
use Prim.Native.Nat.{ℕ}

abbrev pub mav_cmd_nav_return_to_launch : ℕ
mav_cmd_nav_return_to_launch = 20

abbrev pub mav_cmd_nav_land : ℕ
mav_cmd_nav_land = 21

abbrev pub mav_cmd_nav_takeoff : ℕ
mav_cmd_nav_takeoff = 22

abbrev pub mav_cmd_condition_yaw : ℕ
mav_cmd_condition_yaw = 115

abbrev pub mav_cmd_do_set_mode : ℕ
mav_cmd_do_set_mode = 176

abbrev pub mav_cmd_component_arm_disarm : ℕ
mav_cmd_component_arm_disarm = 400

abbrev pub mav_cmd_set_message_interval : ℕ
mav_cmd_set_message_interval = 511

abbrev pub mav_cmd_request_message : ℕ
mav_cmd_request_message = 512

abbrev pub mav_result_accepted : ℕ
mav_result_accepted = 0

abbrev pub mav_result_temporarily_rejected : ℕ
mav_result_temporarily_rejected = 1

abbrev pub mav_result_denied : ℕ
mav_result_denied = 2

abbrev pub mav_result_unsupported : ℕ
mav_result_unsupported = 3

abbrev pub mav_result_failed : ℕ
mav_result_failed = 4

abbrev pub mav_result_in_progress : ℕ
mav_result_in_progress = 5

abbrev pub mav_result_cancelled : ℕ
mav_result_cancelled = 6

abbrev pub mav_autopilot_invalid : ℕ
mav_autopilot_invalid = 8

abbrev pub mav_type_onboard_controller : ℕ
mav_type_onboard_controller = 18

abbrev pub mav_state_active : ℕ
mav_state_active = 4

abbrev pub mav_comp_id_autopilot1 : ℕ
mav_comp_id_autopilot1 = 1

abbrev pub msg_id_sys_status : ℕ
msg_id_sys_status = 1

abbrev pub msg_id_gps_raw_int : ℕ
msg_id_gps_raw_int = 24

abbrev pub msg_id_attitude : ℕ
msg_id_attitude = 30

abbrev pub msg_id_local_position_ned : ℕ
msg_id_local_position_ned = 32

abbrev pub msg_id_global_position_int : ℕ
msg_id_global_position_int = 33

abbrev pub msg_id_battery_status : ℕ
msg_id_battery_status = 147

abbrev pub msg_id_autopilot_version : ℕ
msg_id_autopilot_version = 148
