-- ===== src/Telemetry.antt =====
-- TelemetryStreamConfigurator (include and src/hardware/mavlink/TelemetryStreamConfigurator): the
-- state machine that asks the vehicle for six message streams, one at a time, and again without an answer.
-- Times are nanoseconds of the steady clock, which never goes below its epoch.
pub mod Invariant
pub mod Session
pub mod Progress
mod Tests
use onboard_autonomy.Base.{
  ℕ, ◌+◌, ◌%◌, Bool, true, false, not, ◌&&◌, ◌||◌, Option, none, some, List, [], ◌∷◌, Text, text,
  if◌then◌else◌, ltb, leb, ◌==◌, has_value, holds, value_or, get_elem?, length, Outcome, returned,
  ◌>>=◌, checked,
}
use onboard_autonomy.Mavlink.Protocol.{
  msg_id_sys_status, msg_id_gps_raw_int, msg_id_battery_status, msg_id_global_position_int,
  msg_id_local_position_ned, msg_id_attitude, mav_cmd_set_message_interval, mav_result_accepted,
  mav_result_in_progress,
}
use onboard_autonomy.Mavlink.Messages.{CommandAck}
use onboard_autonomy.Mavlink.Encoder.{
  Bytes, Outgoing, companion_component_id, encode_set_message_interval,
}

pub data Phase : Type 0 where
  waiting_for_vehicle configuring active failed : Phase

pub record StreamRequest : Type 0 where
  pub message_id : ℕ
  pub interval_us : ℕ
  pub name : Text

stream : ℕ → ℕ → Text → StreamRequest
stream id interval name = record { message_id = id; interval_us = interval; name = name }

unfoldable pub stream_requests : List StreamRequest
unfolding stream
stream_requests =
    stream msg_id_sys_status 1_000_000 (text "SYS_STATUS at 1 Hz")
    ∷ stream msg_id_gps_raw_int 500_000 (text "GPS_RAW_INT at 2 Hz")
    ∷ stream msg_id_battery_status 1_000_000 (text "BATTERY_STATUS at 1 Hz")
    ∷ stream msg_id_global_position_int 200_000 (text "GLOBAL_POSITION_INT at 5 Hz")
    ∷ stream msg_id_local_position_ned 100_000 (text "LOCAL_POSITION_NED at 10 Hz")
    ∷ stream msg_id_attitude 100_000 (text "ATTITUDE at 10 Hz")
    ∷ []

abbrev pub acknowledgement_timeout : ℕ
acknowledgement_timeout = 2_000_000_000

abbrev pub maximum_attempts : ℕ
maximum_attempts = 3

pub record Configurator : Type 0 where
  pub phase : Phase
  pub vehicle_system_id : Option ℕ
  pub current_request : ℕ
  pub completed_requests : ℕ
  pub attempt : ℕ
  pub awaiting_ack : Bool
  pub acknowledgement_deadline : ℕ
  pub failure_result : Option ℕ

-- A new object; `reset` puts every field back to it.
unfoldable pub initial : Configurator
initial = record {
  phase = waiting_for_vehicle;
  vehicle_system_id = none;
  current_request = 0;
  completed_requests = 0;
  attempt = 0;
  awaiting_ack = false;
  acknowledgement_deadline = 0;
  failure_result = none;
}

unfoldable pub reset : Configurator → Configurator
reset c = record c {
  phase = waiting_for_vehicle;
  vehicle_system_id = none;
  current_request = 0;
  completed_requests = 0;
  attempt = 0;
  awaiting_ack = false;
  acknowledgement_deadline = 0;
  failure_result = none;
}

unfoldable pub begin : ℕ → Configurator → Configurator
begin system_id c = record (reset c) { phase = configuring; vehicle_system_id = some system_id }

abbrev pub is_configuring : Phase → Bool
is_configuring configuring = true
is_configuring _ = false

abbrev pub Reply : Type 0
Reply = Configurator × Option Bytes

module _ (pack : Outgoing → Bytes) where
  unfoldable pub request_frame : Configurator → StreamRequest → Bytes
  request_frame c request =
      encode_set_message_interval pack (value_or c.vehicle_system_id 0) request.message_id
        request.interval_us (c.attempt % 256) companion_component_id

  -- The end of `update`: the next attempt at the current stream.
  unfoldable pub send_request : ℕ → Configurator → Outcome Reply
  send_request now c = do
    request ← checked (get_elem? stream_requests c.current_request)
    let c' = record c {
      attempt = c.attempt + 1;
      awaiting_ack = true;
      acknowledgement_deadline = now + acknowledgement_timeout;
    }
    returned (c', some (request_frame c request))

  -- The middle of `update`, for a request in flight.
  unfoldable pub check_deadline : ℕ → Configurator → Outcome Reply
  check_deadline now c =
      if ltb now c.acknowledgement_deadline
      then returned (c, none)
      else if leb maximum_attempts c.attempt
      then returned (record c { phase = failed; failure_result = none }, none)
      else send_request now (record c { awaiting_ack = false })

  unfoldable pub continue_setup : ℕ → Configurator → Outcome Reply
  continue_setup now c =
      if not (is_configuring c.phase)
      then returned (c, none)
      else if c.awaiting_ack
      then check_deadline now c
      else send_request now c

  unfoldable pub update : Bool → Option ℕ → ℕ → Configurator → Outcome Reply
  update connected none now c = returned (reset c, none)
  update connected (some system_id) now c =
      if not connected
      then returned (reset c, none)
      else continue_setup now (if holds c.vehicle_system_id system_id then c else begin system_id c)

-- The two guards of `on_command_ack`: is this the answer to the request in flight?
unfoldable pub answers : CommandAck → Configurator → Bool
answers ack c =
    is_configuring c.phase
    && c.awaiting_ack
    && ack.command == mav_cmd_set_message_interval
    && holds c.vehicle_system_id ack.source_system
    && (ack.target_system == 0 || holds c.vehicle_system_id ack.target_system)
    && (ack.target_component == 0 || ack.target_component == companion_component_id)

unfoldable pub complete_request : Configurator → Configurator
complete_request c = record c {
  completed_requests = c.completed_requests + 1;
  current_request = c.current_request + 1;
  attempt = 0;
  awaiting_ack = false;
  failure_result = none;
  phase = if c.current_request + 1 == length stream_requests then active else c.phase;
}

unfoldable pub on_command_ack : CommandAck → ℕ → Configurator → Configurator
unfolding answers complete_request
on_command_ack ack now c =
    if not (answers ack c)
    then c
    else if ack.result == mav_result_in_progress
    then record c { acknowledgement_deadline = now + acknowledgement_timeout }
    else if not (ack.result == mav_result_accepted)
    then record c { phase = failed; failure_result = some ack.result; awaiting_ack = false }
    else complete_request c

pub record SetupSnapshot : Type 0 where
  pub phase : Phase
  pub completed_requests : ℕ
  pub total_requests : ℕ
  pub current_stream : Text
  pub attempt : ℕ
  pub failure_result : Option ℕ

abbrev pub stream_name : Option StreamRequest → Text
stream_name none = []
stream_name (some request) = request.name

unfoldable pub snapshot : Configurator → SetupSnapshot
snapshot c = record {
  phase = c.phase;
  completed_requests = c.completed_requests;
  total_requests = length stream_requests;
  current_stream = stream_name (get_elem? stream_requests c.current_request);
  attempt = c.attempt;
  failure_result = c.failure_result;
}
