-- ===== src/App/Steps.antt =====
-- The steps of `poll` in CompanionApplication.cpp on a valid state.
use onboard_autonomy.Base.{
  ℕ, ◌≡◌, Bool, not, ◌||◌, Option, none, some, [], text, ltb, has_value, value_or, Floating, Fault,
  Returns, >>=-Returns,
}
use onboard_autonomy.Mavlink.Encoder.{
  Bytes, Outgoing, companion_component_id, encode_companion_heartbeat,
  encode_parameter_request_read, encode_battery_arming_voltage_request,
}
use onboard_autonomy.Mavlink.Decoder.{Library}
use onboard_autonomy.Mavlink.Decoder.Keeps.{ingest-keeps}
use onboard_autonomy.Vehicle.Report.{VehicleSnapshot}
use onboard_autonomy.Camera.Ports.{CameraSource, TargetDetector}
use onboard_autonomy.Camera.Monitor.{CameraMonitor}
use onboard_autonomy.App.State.{App}
use onboard_autonomy.App.Events.{start}
use onboard_autonomy.App.Transport.{Transport}
use onboard_autonomy.App.Handlers.{decoder_host}
use onboard_autonomy.App.Poll.{
  beat, send_companion_heartbeat, send_setup, update_telemetry_setup, ask_parameter,
  request_failsafe_parameter, request_version, request_battery, ask_metadata,
  request_vehicle_metadata, act, camera_result, poll_camera, read_transport, poll_inputs, poll,
}
use onboard_autonomy.App.Invariant.{IsValid, choose-IsValid}
use onboard_autonomy.Telemetry
use onboard_autonomy.Camera
use onboard_autonomy.App.Kept.{
  parameter_names-get, write_frame-IsValid, send_noted-IsValid, on_ack-IsValid, on_message-IsValid,
  on_parameter-IsValid, update_vehicle_connection-IsValid, schedule_parameter-IsValid,
  choose-Returns,
}

module _ {C V T P D : Type 0} ⦃fp : Floating D⦄ (pack : Outgoing → Bytes)
    (transport : Transport T) where
  beat-IsValid :
      (id : Option ℕ) (now : ℕ) (app : App C V T P D)
      → IsValid app
      → IsValid (beat pack transport id now app)
  unfolding beat
  beat-IsValid none now app v = v
  beat-IsValid (some id) now app v =
      let w =
        write_frame-IsValid transport (encode_companion_heartbeat pack id companion_component_id)
          now (text "HEARTBEAT") [] app v in
      choose-IsValid _ _ _ w w

  send_companion_heartbeat-IsValid :
      (vehicle : VehicleSnapshot D) (now : ℕ) (app : App C V T P D)
      → IsValid app
      → IsValid (send_companion_heartbeat pack transport vehicle now app)
  unfolding send_companion_heartbeat
  send_companion_heartbeat-IsValid vehicle now app v =
      choose-IsValid (ltb now app.next_heartbeat) app _ v
        (choose-IsValid vehicle.connected _ app (beat-IsValid vehicle.system_id now app v) v)

  send_setup-IsValid :
      (frame : Option Bytes) (now : ℕ) (app : App C V T P D)
      → IsValid app
      → IsValid (send_setup pack transport frame now app)
  unfolding send_setup
  send_setup-IsValid none now app v = v
  send_setup-IsValid (some frame) now app v = send_noted-IsValid transport frame _ _ _ _ now app v

  update_telemetry_setup-IsValid :
      (vehicle : VehicleSnapshot D) (now : ℕ) (app : App C V T P D)
      → IsValid app
      → Returns (λ r. IsValid r.0) (update_telemetry_setup pack transport vehicle now app)
  unfolding update_telemetry_setup
  update_telemetry_setup-IsValid vehicle now app v =
      >>=-Returns (λ r. Telemetry.Invariant.IsValid r.0) _
        (Telemetry.update pack vehicle.connected vehicle.system_id now app.telemetry_configurator) _
        (Telemetry.Invariant.update-IsValid pack vehicle.connected vehicle.system_id now
          app.telemetry_configurator v.setup_valid)
        (λ r h.
          send_setup-IsValid r.1 now (record app { telemetry_configurator = r.0 })
            (record {
              few = v.few;
              named = v.named;
              setup_valid = h;
              link_valid = v.link_valid;
              told = v.told;
            }))

  ask_parameter-IsValid :
      (id : Option ℕ) (now : ℕ) (app : App C V T P D)
      → IsValid app
      → Returns IsValid (ask_parameter pack transport id now app)
  unfolding ask_parameter encode_parameter_request_read
  ask_parameter-IsValid none now app v = v
  ask_parameter-IsValid (some id) now app v =
      let (name, found, fits) = parameter_names-get app.failsafe_parameter_index v.named in
      rw (found, fits)
        (schedule_parameter-IsValid now _ (send_noted-IsValid transport _ _ _ _ _ now app v))

  request_failsafe_parameter-IsValid :
      (vehicle : VehicleSnapshot D) (ready : Bool) (now : ℕ) (app : App C V T P D)
      → IsValid app
      → Returns IsValid (request_failsafe_parameter pack transport vehicle ready now app)
  unfolding request_failsafe_parameter
  request_failsafe_parameter-IsValid vehicle ready now app v =
      choose-Returns (not ready || ltb now app.next_failsafe_parameter_request) _ _ v
        (ask_parameter-IsValid vehicle.system_id now app v)

  request_battery-IsValid :
      (vehicle : VehicleSnapshot D) (id now : ℕ) (app : App C V T P D)
      → IsValid app
      → Returns IsValid (request_battery pack transport vehicle id now app)
  unfolding request_battery encode_battery_arming_voltage_request encode_parameter_request_read text
  request_battery-IsValid vehicle id now app v =
      choose-Returns
        (has_value vehicle.battery_arming_voltage_v || ltb now app.next_battery_parameter_request) _
        _ v (send_noted-IsValid transport _ _ _ _ _ now app v)

  request_version-IsValid :
      (vehicle : VehicleSnapshot D) (id now : ℕ) (app : App C V T P D)
      → IsValid app
      → IsValid (request_version pack transport vehicle id now app)
  unfolding request_version
  request_version-IsValid vehicle id now app v =
      choose-IsValid
        (has_value vehicle.autopilot_metadata || ltb now app.next_autopilot_version_request) app _ v
        (send_noted-IsValid transport _ _ _ _ _ now app v)

  ask_metadata-IsValid :
      (id : Option ℕ) (vehicle : VehicleSnapshot D) (now : ℕ) (app : App C V T P D)
      → IsValid app
      → Returns IsValid (ask_metadata pack transport id vehicle now app)
  unfolding ask_metadata
  ask_metadata-IsValid none vehicle now app v = v
  ask_metadata-IsValid (some id) vehicle now app v =
      request_battery-IsValid vehicle id now _ (request_version-IsValid vehicle id now app v)

  -- The sending half of a poll throws nothing, and keeps the state valid.
  pub act-IsValid :
      (vehicle : VehicleSnapshot D) (now : ℕ) (app : App C V T P D)
      → IsValid app
      → Returns IsValid (act pack transport vehicle now app)
  unfolding act request_vehicle_metadata
  act-IsValid vehicle now app v =
      let connected = update_vehicle_connection-IsValid vehicle now app v in
      let beaten = send_companion_heartbeat-IsValid vehicle now _ connected in
      >>=-Returns (λ r. IsValid r.0) IsValid _ _
        (update_telemetry_setup-IsValid vehicle now _ beaten)
        (λ r set.
          >>=-Returns IsValid IsValid _ _
            (request_failsafe_parameter-IsValid vehicle r.1 now r.0 set)
            (λ asked ok.
              choose-Returns (not r.1) _ _ ok
                (ask_metadata-IsValid vehicle.system_id vehicle now asked ok)))

-- A camera whose poll throws nothing, where there is one.
abbrev pub Quiet :
    {C V D : Type 0} ⦃fp : Floating D⦄
    → CameraSource C
    → TargetDetector V D
    → ℕ
    → Option (CameraMonitor C V D)
    → Type 0
Quiet source detector now none = Unit {0}
Quiet source detector now (some m) = (Camera.Monitor.poll source detector now m).1 ≡ none

module _ {C V T P D : Type 0} ⦃fp : Floating D⦄ (source : CameraSource C)
    (detector : TargetDetector V D) where
  camera_result-IsValid :
      (app : App C V T P D) (m : CameraMonitor C V D) (fault : Option Fault)
      → fault ≡ none
      → IsValid app
      → Returns IsValid (camera_result source detector app (m, fault))
  unfolding camera_result
  camera_result-IsValid app m none e v = v
  camera_result-IsValid app m (some f) e v = cc

  poll_camera-IsValid :
      (camera : Option (CameraMonitor C V D)) (now : ℕ) (app : App C V T P D)
      → Quiet source detector now camera
      → IsValid app
      → Returns IsValid (poll_camera source detector camera now app)
  unfolding poll_camera
  poll_camera-IsValid none now app q v = v
  poll_camera-IsValid (some m) now app q v =
      camera_result-IsValid app _ (Camera.Monitor.poll source detector now m).1 q v

  read_transport-IsValid :
      (transport : Transport T) (library : Library P) (now : ℕ) (app : App C V T P D)
      → IsValid app
      → IsValid (read_transport source detector transport library now app)
  unfolding read_transport decoder_host
  read_transport-IsValid transport library now app v =
      ingest-keeps decoder_host IsValid (λ vehicle s w. w) on_ack-IsValid on_message-IsValid
        on_parameter-IsValid library _ now app.parser _ v

  -- From a valid state, over a transport that does not throw and where the poll of the camera throws
  -- nothing, `poll` returns, whatever the received bytes and the times are, and leaves a valid state: at
  -- most eight link events, the index of one of the four parameters, a valid telemetry set-up and
  -- failsafe, and each sink that is not null was last told the phase that the failsafe is in.
  pub poll-IsValid :
      (pack : Outgoing → Bytes) (transport : Transport T) (library : Library P)
      (fixed_now : Option ℕ) (camera_clock clock : ℕ) (app : App C V T P D)
      → Quiet source detector (value_or fixed_now camera_clock) app.camera_monitor
      → IsValid app
      → Returns IsValid
          (poll source detector pack transport library fixed_now camera_clock clock app)
  unfolding poll poll_inputs start
  poll-IsValid pack transport library fixed_now camera_clock clock app q v =
      let now = value_or fixed_now clock in
      >>=-Returns IsValid IsValid _ _
        (>>=-Returns IsValid IsValid _ _
          (poll_camera-IsValid app.camera_monitor (value_or fixed_now camera_clock) _ q v)
          (λ seen w. read_transport-IsValid transport library now seen w))
        (λ read w. act-IsValid pack transport _ now _ w)
