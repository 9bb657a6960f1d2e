-- ===== src/App/Poll.antt =====
-- `poll` of CompanionApplication::Impl and its steps. An exception ends the poll and the run of the
-- program: what the state is then is not kept.
use onboard_autonomy.Base.{
  ℕ, ◌+◌, Bool, true, false, not, ◌&&◌, ◌||◌, Option, none, some, [], ◌++◌, Text, text, to_string,
  if◌then◌else◌, ltb, has_value, value_or, get_elem?, length, Floating, Fault, Outcome, returned,
  thrown, ◌>>=◌, checked,
}
use onboard_autonomy.Mavlink.Encoder.{
  Bytes, Outgoing, companion_component_id, encode_companion_heartbeat,
  encode_parameter_request_read, encode_autopilot_version_request,
  encode_battery_arming_voltage_request,
}
use onboard_autonomy.Mavlink.Decoder.{Library, ingest}
use onboard_autonomy.Vehicle.Report.{VehicleSnapshot}
use onboard_autonomy.Camera.Ports.{CameraSource, TargetDetector}
use onboard_autonomy.Camera.Monitor.{CameraMonitor}
use onboard_autonomy.App.Names.{LinkEventStatus, outbound, pending, failure}
use onboard_autonomy.App.State.{App}
use onboard_autonomy.App.Events.{start, record_event, observe_failsafe_phase, observe_vehicle}
use onboard_autonomy.App.Transport.{Transport, write_frame}
use onboard_autonomy.App.Handlers.{parameter_names, decoder_host}
use onboard_autonomy.Vehicle
use onboard_autonomy.Camera
use onboard_autonomy.Telemetry
use onboard_autonomy.Failsafe

abbrev pub receive_buffer_size : ℕ
receive_buffer_size = 4096

abbrev pub heartbeat_interval : ℕ
heartbeat_interval = 1_000_000_000

abbrev pub battery_parameter_retry_interval : ℕ
battery_parameter_retry_interval = 2_000_000_000

abbrev pub failsafe_parameter_spacing : ℕ
failsafe_parameter_spacing = 200_000_000

abbrev pub rejected_failsafe_retry_interval : ℕ
rejected_failsafe_retry_interval = 2_000_000_000

abbrev pub accepted_failsafe_refresh_interval : ℕ
accepted_failsafe_refresh_interval = 10_000_000_000

abbrev pub autopilot_version_retry_interval : ℕ
autopilot_version_retry_interval = 2_000_000_000

abbrev sent_status : Bool → LinkEventStatus
sent_status true = pending
sent_status false = failure

abbrev write_note : Bool → Text
write_note true = []
write_note false = text " | WRITE FAILED"

abbrev pub is_active : Telemetry.Phase → Bool
is_active Telemetry.active = true
is_active _ = false

module _ {C V T P D : Type 0} ⦃fp : Floating D⦄ where
  unfoldable pub update_vehicle_connection : VehicleSnapshot D → ℕ → App C V T P D → App C V T P D
  update_vehicle_connection vehicle now app =
      let newly_connected = vehicle.connected && not app.vehicle_was_connected in
      let followed = observe_failsafe_phase now (record app {
        companion_link_failsafe =
            Failsafe.observe_vehicle vehicle.connected vehicle.system_id
              app.companion_link_failsafe;
      }) in
      let restarted =
        if newly_connected
        then record followed { failsafe_parameter_index = 0; next_failsafe_parameter_request = now }
        else followed in
      let observed = observe_vehicle vehicle now restarted in
      if vehicle.connected then observed else record observed { companion_heartbeat_active = false }

  -- The write, and the event that says whether it went out.
  unfoldable pub send_noted :
      Transport T → Bytes → Text → Text → Text → Text → ℕ → App C V T P D → App C V T P D
  send_noted transport frame message_name activity label detail now app =
      let (a, sent) = write_frame transport frame now message_name activity app in
      record_event outbound (sent_status sent) label (detail ++ write_note sent) now a

  -- After a request: the next parameter soon, or the round is over.
  unfoldable pub schedule_parameter : ℕ → App C V T P D → App C V T P D
  schedule_parameter now app =
      if ltb (app.failsafe_parameter_index + 1) (length parameter_names)
      then record app {
        failsafe_parameter_index = app.failsafe_parameter_index + 1;
        next_failsafe_parameter_request = now + failsafe_parameter_spacing;
      }
      else record app {
        failsafe_parameter_index = 0;
        next_failsafe_parameter_request =
            now
            + (if Failsafe.is_accepted app.companion_link_failsafe.snapshot.phase
                then accepted_failsafe_refresh_interval
                else rejected_failsafe_retry_interval);
      }

module _ {C V T P D : Type 0} ⦃fp : Floating D⦄ (pack : Outgoing → Bytes)
    (transport : Transport T) where
  unfoldable pub beat : Option ℕ → ℕ → App C V T P D → App C V T P D
  beat none now app = app
  beat (some system_id) now app =
      let (a, sent) =
        write_frame transport (encode_companion_heartbeat pack system_id companion_component_id) now
          (text "HEARTBEAT") [] app in
      if sent then record a { companion_heartbeat_active = true } else a

  unfoldable pub send_companion_heartbeat : VehicleSnapshot D → ℕ → App C V T P D → App C V T P D
  unfolding beat
  send_companion_heartbeat vehicle now app =
      if ltb now app.next_heartbeat
      then app
      else record (if vehicle.connected then beat vehicle.system_id now app else app) {
        next_heartbeat = now + heartbeat_interval;
      }

  unfoldable pub send_setup : Option Bytes → ℕ → App C V T P D → App C V T P D
  send_setup none now app = app
  send_setup (some frame) now app =
      let setup = Telemetry.snapshot app.telemetry_configurator in
      send_noted transport frame (text "COMMAND_LONG")
        (text "SET_INTERVAL " ++ setup.current_stream) (text "SET_INTERVAL")
        (setup.current_stream ++ (text " | ATTEMPT " ++ to_string setup.attempt)) now app

  -- The application, and whether the telemetry is set up.
  unfoldable pub update_telemetry_setup :
      VehicleSnapshot D → ℕ → App C V T P D → Outcome (App C V T P D × Bool)
  unfolding send_setup
  update_telemetry_setup vehicle now app = do
    reply ← Telemetry.update pack vehicle.connected vehicle.system_id now app.telemetry_configurator
    let sent = send_setup reply.1 now (record app { telemetry_configurator = reply.0 })
    returned (sent, is_active sent.telemetry_configurator.phase)

  -- An index past the end of the names, undefined in the source, is the fault `out_of_range`.
  unfoldable pub ask_parameter : Option ℕ → ℕ → App C V T P D → Outcome (App C V T P D)
  ask_parameter none now app = returned app
  ask_parameter (some system_id) now app = do
    name ← checked (get_elem? parameter_names app.failsafe_parameter_index)
    frame ← encode_parameter_request_read pack system_id name companion_component_id
    returned (
        schedule_parameter now (
          send_noted transport frame (text "PARAM_REQUEST_READ") name (text "PARAM READ") name now
            app))

  unfoldable pub request_failsafe_parameter :
      VehicleSnapshot D → Bool → ℕ → App C V T P D → Outcome (App C V T P D)
  unfolding ask_parameter
  request_failsafe_parameter vehicle telemetry_ready now app =
      if not telemetry_ready || ltb now app.next_failsafe_parameter_request
      then returned app
      else ask_parameter vehicle.system_id now app

  unfoldable pub request_version : VehicleSnapshot D → ℕ → ℕ → App C V T P D → App C V T P D
  request_version vehicle system_id now app =
      if has_value vehicle.autopilot_metadata || ltb now app.next_autopilot_version_request
      then app
      else record (send_noted transport
          (encode_autopilot_version_request pack system_id companion_component_id)
          (text "COMMAND_LONG") (text "REQUEST AUTOPILOT_VERSION") (text "REQUEST_VERSION")
          (text "AUTOPILOT_VERSION") now app) {
            next_autopilot_version_request = now + autopilot_version_retry_interval;
          }

  unfoldable pub request_battery :
      VehicleSnapshot D → ℕ → ℕ → App C V T P D → Outcome (App C V T P D)
  request_battery vehicle system_id now app =
      if has_value vehicle.battery_arming_voltage_v || ltb now app.next_battery_parameter_request
      then returned app
      else do
        frame ← encode_battery_arming_voltage_request pack system_id companion_component_id
        returned
            (record (send_noted transport frame (text "PARAM_REQUEST_READ") (text "BATT_ARM_VOLT")
              (text "PARAM READ") (text "BATT_ARM_VOLT") now app) {
                next_battery_parameter_request = now + battery_parameter_retry_interval;
              })

  unfoldable pub ask_metadata :
      Option ℕ → VehicleSnapshot D → ℕ → App C V T P D → Outcome (App C V T P D)
  ask_metadata none vehicle now app = returned app
  ask_metadata (some system_id) vehicle now app =
      request_battery vehicle system_id now (request_version vehicle system_id now app)

  unfoldable pub request_vehicle_metadata :
      VehicleSnapshot D → Bool → ℕ → App C V T P D → Outcome (App C V T P D)
  unfolding ask_metadata
  request_vehicle_metadata vehicle telemetry_ready now app =
      if not telemetry_ready then returned app else ask_metadata vehicle.system_id vehicle now app

  -- `poll` once the inputs are in, for the vehicle as it then is.
  unfoldable pub act : VehicleSnapshot D → ℕ → App C V T P D → Outcome (App C V T P D)
  act vehicle now app = do
    setup ←
        update_telemetry_setup vehicle now
          (send_companion_heartbeat vehicle now (update_vehicle_connection vehicle now app))
    asked ← request_failsafe_parameter vehicle setup.1 now setup.0
    request_vehicle_metadata vehicle setup.1 now asked

module _ {C V T P D : Type 0} ⦃fp : Floating D⦄ (source : CameraSource C)
    (detector : TargetDetector V D) where
  unfoldable pub camera_result :
      App C V T P D → CameraMonitor C V D × Option Fault → Outcome (App C V T P D)
  camera_result app (m, none) = returned (record app { camera_monitor = some m })
  camera_result app (m, some e) = thrown e

  unfoldable pub poll_camera :
      Option (CameraMonitor C V D) → ℕ → App C V T P D → Outcome (App C V T P D)
  poll_camera none now app = returned app
  poll_camera (some m) now app = camera_result app (Camera.Monitor.poll source detector now m)

  unfoldable pub read_transport : Transport T → Library P → ℕ → App C V T P D → App C V T P D
  read_transport transport library now app =
      let (t, bytes) = transport.read receive_buffer_size app.transport in
      let (p, after) =
        ingest decoder_host library bytes now (app.parser, record app { transport = t }) in
      record after { parser = p }

  -- The two readings of the clock give the times, unless one is given.
  unfoldable pub poll_inputs :
      Transport T → Library P → Option ℕ → ℕ → ℕ → App C V T P D → Outcome (App C V T P D)
  unfolding poll_camera camera_result
  poll_inputs transport library fixed_now camera_clock clock app = do
    let camera_now = value_or fixed_now camera_clock
    seen ← poll_camera app.camera_monitor camera_now (start camera_now app)
    returned (read_transport transport library (value_or fixed_now clock) seen)

  unfoldable pub poll :
      (Outgoing → Bytes)
      → Transport T
      → Library P
      → Option ℕ
      → ℕ
      → ℕ
      → App C V T P D
      → Outcome (App C V T P D)
  poll pack transport library fixed_now camera_clock clock app = do
    read ← poll_inputs transport library fixed_now camera_clock clock app
    let now = value_or fixed_now clock
    let reply = Vehicle.Report.snapshot now read.vehicle_state
    act pack transport reply.1 now (record read { vehicle_state = reply.0 })
