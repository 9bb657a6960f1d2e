-- ===== src/App/Report.antt =====
-- `snapshot` of CompanionApplication::Impl, with AppSnapshot of AppSnapshot.hpp.
use onboard_autonomy.Base.{ℕ, Bool, Option, none, some, List, Text, ℤ, Floating}
use onboard_autonomy.Vehicle.Report.{VehicleSnapshot}
use onboard_autonomy.Camera.Ports.{CameraSource, TargetDetector}
use onboard_autonomy.Camera.Vision.{VisionMonitor, VisionSnapshot, vision_snapshot}
use onboard_autonomy.Camera.Monitor.{
  CameraMonitor, CameraSnapshot, ProcessedFrame, take_latest_processed_frame,
}
use onboard_autonomy.App.Names.{TelemetrySetupState, map_telemetry_state}
use onboard_autonomy.App.State.{App, LinkEvent, LinkActivity, SimulatedWindProfile}
use onboard_autonomy.App.Events.{start, elapsed_at}
use onboard_autonomy.Vehicle
use onboard_autonomy.Camera
use onboard_autonomy.Telemetry
use onboard_autonomy.Failsafe

pub record TelemetryStatus : Type 0 where
  pub state : TelemetrySetupState
  pub completed_requests : ℕ
  pub total_requests : ℕ
  pub current_stream : Text
  pub attempt : ℕ
  pub failure_result : Option ℕ

pub record AppSnapshot (D : Type 0) : Type 0 where
  pub vehicle : VehicleSnapshot D
  pub companion_heartbeat_active : Bool
  pub companion_link_failsafe : Failsafe.Snapshot D
  pub telemetry : TelemetryStatus
  pub simulated_wind : Option (SimulatedWindProfile D)
  pub camera : Option (CameraSnapshot D)
  pub vision : Option (VisionSnapshot D)
  pub link_events : List LinkEvent
  pub elapsed : ℤ
  pub tx_activity : Option LinkActivity
  pub rx_activity : Option LinkActivity

unfoldable pub telemetry_status : Telemetry.SetupSnapshot → TelemetryStatus
telemetry_status setup = record {
  state = map_telemetry_state setup.phase;
  completed_requests = setup.completed_requests;
  total_requests = setup.total_requests;
  current_stream = setup.current_stream;
  attempt = setup.attempt;
  failure_result = setup.failure_result;
}

module _ {C V D : Type 0} ⦃fp : Floating D⦄ (source : CameraSource C)
    (detector : TargetDetector V D) where
  camera_part : ℕ → Option (CameraMonitor C V D) → Option (CameraSnapshot D)
  camera_part now none = none
  camera_part now (some m) = some (Camera.Monitor.snapshot source now m)

  seen_part : ℕ → Option (VisionMonitor V D) → Option (VisionSnapshot D)
  seen_part now none = none
  seen_part now (some v) = some (vision_snapshot detector now v)

  vision_part : ℕ → Option (CameraMonitor C V D) → Option (VisionSnapshot D)
  unfolding seen_part
  vision_part now none = none
  vision_part now (some m) = seen_part now m.vision

  module _ {T P : Type 0} where
    unfoldable pub snapshot : ℕ → App C V T P D → App C V T P D × AppSnapshot D
    unfolding camera_part vision_part
    snapshot now app =
        let (v, vehicle) = Vehicle.Report.snapshot now app.vehicle_state in
        (
          record (start now app) { vehicle_state = v },
          record {
            vehicle = vehicle;
            companion_heartbeat_active = app.companion_heartbeat_active;
            companion_link_failsafe = app.companion_link_failsafe.snapshot;
            telemetry = telemetry_status (Telemetry.snapshot app.telemetry_configurator);
            simulated_wind = app.simulated_wind;
            camera = camera_part now app.camera_monitor;
            vision = vision_part now app.camera_monitor;
            link_events = app.link_events;
            elapsed = elapsed_at now app;
            tx_activity = app.tx_activity;
            rx_activity = app.rx_activity;
          },
        )

module _ {C V T P D : Type 0} where
  take_frame :
      Option (CameraMonitor C V D) → App C V T P D → App C V T P D × Option (ProcessedFrame D)
  take_frame none app = (app, none)
  take_frame (some m) app =
      let (m', frame) = take_latest_processed_frame m in
      (record app { camera_monitor = some m' }, frame)

  unfoldable pub take_latest_processed_camera_frame :
      App C V T P D → App C V T P D × Option (ProcessedFrame D)
  unfolding take_frame
  take_latest_processed_camera_frame app = take_frame app.camera_monitor app
