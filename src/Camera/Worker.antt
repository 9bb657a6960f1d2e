-- ===== src/Camera/Worker.antt =====
-- AsyncCameraMonitor (src/mission/cv/AsyncCameraMonitor.cpp): a worker thread polls a camera
-- monitor, and the caller takes frames and errors from a mailbox behind a mutex. One iteration of
-- the worker and each call of the caller are steps, interleaved in any order; what an iteration
-- does to the mailbox stands under the mutex.
use onboard_autonomy.Base.{ℕ, Option, none, some, Floating, Fault}
use onboard_autonomy.Camera.Ports.{CameraSource, TargetDetector}
use onboard_autonomy.Camera.Monitor.{
  CameraMonitor, ProcessedFrame, poll, take_latest_processed_frame, disable_target_detection,
}

pub record Worker (C V D : Type 0) : Type 0 where
  pub monitor : CameraMonitor C V D
  pub latest_frame : Option (ProcessedFrame D)
  pub latest_error : Option Fault

module _ {C V D : Type 0} where
  -- The two handlers of `run`'s `try`.
  unfoldable pub handle_failure : CameraMonitor C V D × Option Fault → Worker C V D → Worker C V D
  handle_failure (m, none) w = record w { monitor = m }
  handle_failure (m, some e) w = record w {
    monitor = disable_target_detection m;
    latest_error = some e;
  }

  unfoldable pub publish_frame :
      CameraMonitor C V D × Option (ProcessedFrame D) → Worker C V D → Worker C V D
  publish_frame (m, none) w = record w { monitor = m }
  publish_frame (m, some frame) w = record w { monitor = m; latest_frame = some frame }

  unfoldable pub publish : Worker C V D → Worker C V D
  unfolding publish_frame
  publish w = publish_frame (take_latest_processed_frame w.monitor) w

  unfoldable pub take_frame : Worker C V D → Worker C V D × Option (ProcessedFrame D)
  take_frame w = (record w { latest_frame = none }, w.latest_frame)

  unfoldable pub take_latest_error : Worker C V D → Worker C V D × Option Fault
  take_latest_error w = (record w { latest_error = none }, w.latest_error)

module _ {C V D : Type 0} ⦃fp : Floating D⦄ (source : CameraSource C)
    (detector : TargetDetector V D) where
  -- One iteration of `run` at the worker's clock; the delay when idle changes no state.
  unfoldable pub iterate : ℕ → Worker C V D → Worker C V D
  unfolding handle_failure publish
  iterate now w = publish (handle_failure (poll source detector now w.monitor) w)
