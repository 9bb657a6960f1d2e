-- ===== src/Runner/Companion.antt =====
-- CompanionApplication and AsyncCameraMonitor as the runner uses them.
use onboard_autonomy.Base.{ℕ, Option, Floating}
use onboard_autonomy.Mavlink.Encoder.{Bytes, Outgoing}
use onboard_autonomy.Mavlink.Decoder.{Library}
use onboard_autonomy.Camera.Ports.{CameraSource, TargetDetector}
use onboard_autonomy.Camera.Monitor.{ProcessedFrame}
use onboard_autonomy.Camera.Worker.{Worker, take_frame, take_latest_error}
use onboard_autonomy.App.State.{App}
use onboard_autonomy.App.Transport.{Transport}
use onboard_autonomy.App.Poll.{poll}
use onboard_autonomy.App.Report.{AppSnapshot, snapshot, take_latest_processed_camera_frame}
use onboard_autonomy.Runner.{Application, ForwardMonitor}

-- The clocks that a poll of the application reads, for the camera and for the vehicle.
pub record PollClocks : Type 0 where
  pub camera_clock : ℕ
  pub clock : ℕ

module _ {C V T P D : Type 0} ⦃fp : Floating D⦄ (source : CameraSource C)
    (detector : TargetDetector V D) where
  unfoldable pub companion :
      (Outgoing → Bytes)
      → Transport T
      → Library P
      → Application (App C V T P D) PollClocks (ProcessedFrame D) (AppSnapshot D)
  companion pack transport library = record {
    poll =
        λ c app. poll source detector pack transport library Option.none c.camera_clock c.clock app;
    take_latest_processed_camera_frame = take_latest_processed_camera_frame;
    snapshot = λ now app. snapshot source detector now app;
  }

unfoldable pub forward_monitor : {C V D : Type 0} → ForwardMonitor (Worker C V D) (ProcessedFrame D)
forward_monitor = record {
  take_latest_error = take_latest_error;
  take_latest_processed_frame = take_frame;
}
