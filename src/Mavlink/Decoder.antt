-- ===== src/Mavlink/Decoder.antt =====
-- MavlinkDecoder (include and src/hardware/mavlink/MavlinkDecoder): bytes to messages, messages to
-- the vehicle state and the handlers. Framing and payload decoding are the MAVLink library's.
pub mod Filter
pub mod Keeps
mod Tests
use onboard_autonomy.Base.{
  ℕ, ◌+◌, ◌/◌, ◌%◌, Bool, true, false, not, ◌&&◌, ◌||◌, Option, none, some, List, [], ◌∷◌, Text,
  text, text_eq, up_to_nul, if◌then◌else◌, ltb, ◌==◌, holds, ℤ, pos, negsuc, Floating,
}
use onboard_autonomy.Mavlink.Protocol.{mav_autopilot_invalid, mav_comp_id_autopilot1}
use onboard_autonomy.Mavlink.Messages.{
  Heartbeat, BatteryStatus, SysStatus, AutopilotVersion, Ack, Payload, Message, CommandAck,
  ParameterValue, MessageObservation, heartbeat, gps_raw_int, global_position_int,
  local_position_ned, attitude, battery_status, sys_status, autopilot_version, param_value,
  statustext, command_ack, other,
}
use onboard_autonomy.Vehicle.State.{
  VehicleState, AutopilotMetadata, on_heartbeat, on_gps, on_global_position, on_local_position,
  on_attitude, on_battery, on_battery_arming_voltage, on_autopilot_metadata, on_system_status,
  on_status_text,
}
use onboard_autonomy.Vehicle.Report.{VehicleSnapshot, snapshot}

abbrev pub u16_max : ℕ
u16_max = 65535

abbrev is_reading : ℕ → Bool
is_reading millivolts = ltb 0 millivolts && not (millivolts == u16_max)

module _ {D : Type 0} ⦃fp : Floating D⦄ where
  abbrev volts : ℕ → D
  volts millivolts = fp.div (fp.of_int (pos millivolts)) (fp.of_int (pos 1000))

  -- The running total of the cells read so far; `none` while none has a voltage.
  unfoldable pub add_voltages : List ℕ → Option D → Option D
  add_voltages [] total = total
  add_voltages (millivolts ∷ cells) total = add_voltages cells (
      if is_reading millivolts
      then some (fp.add (elim total [ none ↦ fp.of_int (pos 0) | some t ↦ t ]) (volts millivolts))
      else total)

  unfoldable pub battery_voltage : BatteryStatus → Option D
  battery_voltage b = add_voltages b.voltages_ext (add_voltages b.voltages none)

  unfoldable pub current_from_centiampere : ℤ → Option D
  current_from_centiampere (pos n) = some (fp.div (fp.of_int (pos n)) (fp.of_int (pos 100)))
  current_from_centiampere (negsuc n) = none

  unfoldable pub status_voltage : ℕ → Option D
  status_voltage millivolts = if is_reading millivolts then some (volts millivolts) else none

unfoldable pub remaining_percent : ℤ → Option ℤ
remaining_percent (pos n) = some (pos n)
remaining_percent (negsuc n) = none

-- `(packed >> k) & 0xFF`
unfoldable pub metadata_of : AutopilotVersion → AutopilotMetadata
metadata_of a = record {
  firmware_major = a.flight_sw_version / 16_777_216 % 256;
  firmware_minor = a.flight_sw_version / 65_536 % 256;
  firmware_patch = a.flight_sw_version / 256 % 256;
  firmware_release_type = a.flight_sw_version % 256;
  capabilities = a.capabilities;
  board_version = a.board_version;
  vendor_id = a.vendor_id;
  product_id = a.product_id;
}

-- What owns the decoder: a state with the vehicle in it, and the three handlers, each of which may
-- be missing.
pub record Host (S D : Type 0) : Type 0 where
  pub vehicle : S → VehicleState D
  pub set_vehicle : VehicleState D → S → S
  pub on_ack : Option (CommandAck → ℕ → S → S)
  pub on_message : Option (MessageObservation → ℕ → S → S)
  pub on_parameter : Option (ParameterValue D → ℕ → S → S)

-- The MAVLink library: one byte to the receive state `P`, and a message when a frame is complete
-- and sound; the names of the messages that it knows, empty for another id.
pub record Library (P : Type 0) : Type 0 where
  pub frame_char : P → ℕ → P × Option Message
  pub message_name : ℕ → Text

abbrev pub is_heartbeat : Payload → Bool
is_heartbeat (heartbeat h) = true
is_heartbeat _ = false

-- The connected controller is the sender.
unfoldable pub is_from : {D : Type 0} → VehicleSnapshot D → Message → Bool
is_from s m = s.connected && (holds s.system_id m.sysid && holds s.component_id m.compid)

module _ {S D : Type 0} ⦃fp : Floating D⦄ (host : Host S D) where
  abbrev modify : (VehicleState D → VehicleState D) → S → S
  modify f s = host.set_vehicle (f (host.vehicle s)) s

  -- `state_.snapshot(now)`, which erases old warnings on its way.
  abbrev observe : ℕ → S → S × VehicleSnapshot D
  observe now s = let (v, report) = snapshot now (host.vehicle s) in (host.set_vehicle v s, report)

  unfoldable pub handle_heartbeat : Message → Heartbeat → ℕ → S → S
  handle_heartbeat m h now s =
      let (s', report) = observe now s in
      if h.autopilot == mav_autopilot_invalid || not (m.compid == mav_comp_id_autopilot1)
      then s
      else if report.connected && not (is_from report m)
      then s'
      else modify
          (on_heartbeat m.sysid m.compid h.vehicle_type h.autopilot h.base_mode h.custom_mode
            h.system_status now)
          s'

  unfoldable pub handle_battery : BatteryStatus → ℕ → S → S
  handle_battery b now = modify (
      on_battery (battery_voltage b) (current_from_centiampere b.current_battery)
        (remaining_percent b.battery_remaining) now)

  unfoldable pub handle_system_status : SysStatus → ℕ → S → S
  handle_system_status st now = modify (
      on_system_status st.sensors_enabled st.sensors_health (status_voltage st.voltage_battery)
        (current_from_centiampere st.current_battery) (remaining_percent st.battery_remaining) now)

  unfoldable pub handle_autopilot_version : Message → AutopilotVersion → S → S
  handle_autopilot_version m a s =
      if not (m.compid == mav_comp_id_autopilot1)
      then s
      else modify (on_autopilot_metadata (metadata_of a)) s

  unfoldable pub notify_parameter :
      Option (ParameterValue D → ℕ → S → S) → ParameterValue D → ℕ → S → S
  notify_parameter none p now s = s
  notify_parameter (some handler) p now s = handler p now s

  unfoldable pub handle_parameter_value : Message → List ℕ → ℕ → ℕ → ℕ → S → S
  unfolding notify_parameter
  handle_parameter_value m raw_id value type now s =
      let id = up_to_nul raw_id in
      notify_parameter host.on_parameter
        (record {
          source_system = m.sysid;
          source_component = m.compid;
          id = id;
          value = fp.widen value;
          type = type;
        })
        now
        (if text_eq id (text "BATT_ARM_VOLT")
          then modify (on_battery_arming_voltage (fp.widen value) now) s
          else s)

  unfoldable pub notify_ack : Option (CommandAck → ℕ → S → S) → CommandAck → ℕ → S → S
  notify_ack none a now s = s
  notify_ack (some handler) a now s = handler a now s

  unfoldable pub handle_command_ack : Message → Ack → ℕ → S → S
  unfolding notify_ack
  handle_command_ack m a now s =
      notify_ack host.on_ack
        (record {
          source_system = m.sysid;
          source_component = m.compid;
          command = a.command;
          result = a.result;
          progress = a.progress;
          result_parameter = a.result_param2;
          target_system = a.target_system;
          target_component = a.target_component;
        })
        now s

  -- The `switch` of `handle_message`.
  unfoldable pub dispatch : Message → Payload → ℕ → S → S
  dispatch m (heartbeat h) now s = handle_heartbeat m h now s
  dispatch m (gps_raw_int fix satellites) now s = modify (on_gps fix satellites now) s
  dispatch m (global_position_int mm) now s = modify (on_global_position mm now) s
  dispatch m (local_position_ned x y z) now s = modify (on_local_position x y z now) s
  dispatch m (attitude roll pitch yaw rate) now s = modify (on_attitude roll pitch yaw rate now) s
  dispatch m (battery_status b) now s = handle_battery b now s
  dispatch m (sys_status st) now s = handle_system_status st now s
  dispatch m (autopilot_version a) now s = handle_autopilot_version m a s
  dispatch m (param_value id value type) now s = handle_parameter_value m id value type now s
  dispatch m (statustext severity body) now s =
      modify (on_status_text severity (up_to_nul body) now) s
  dispatch m (command_ack a) now s = handle_command_ack m a now s
  dispatch m (other id) now s = s

  unfoldable pub handle_message : Message → ℕ → S → S
  handle_message m now s =
      let (s', report) = observe now s in
      if is_heartbeat m.payload
      then dispatch m m.payload now s
      else if not (is_from report m)
      then s'
      else dispatch m m.payload now s'

  unfoldable pub notify_message :
      Option (MessageObservation → ℕ → S → S) → MessageObservation → ℕ → S → S
  notify_message none o now s = s
  notify_message (some handler) o now s = handler o now s

  module _ {P : Type 0} (library : Library P) where
    unfoldable pub receive : Message → ℕ → S → S
    unfolding notify_message
    receive m now s = handle_message m now (
        notify_message host.on_message
          (record {
            message_id = m.msgid;
            source_system = m.sysid;
            source_component = m.compid;
            message_name = library.message_name m.msgid;
          })
          now s)

    unfoldable pub framed : Option Message → ℕ → S → S
    framed none now s = s
    framed (some m) now s = receive m now s

    unfoldable pub ingest : List ℕ → ℕ → P × S → P × S
    unfolding framed
    ingest [] now ps = ps
    ingest (byte ∷ bytes) now (p, s) =
        let (p', frame) = library.frame_char p byte in ingest bytes now (p', framed frame now s)
