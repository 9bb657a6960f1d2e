-- ===== src/Camera/Monitor.antt =====
-- CameraMonitor (src/mission/cv/CameraMonitor.cpp, CameraSnapshot.hpp).
use Prim.Native.Nat.{max}
use onboard_autonomy.Base.{
  ℕ, ◌-◌, Option, none, some, List, [], Text, pos, sub_ℕ, ltb, if◌then◌else◌, Floating, Fault,
  has_value,
}
use onboard_autonomy.Camera.Ports.{
  add64, gap64, CameraFrame, CameraSource, SourcePhase, TargetObservation, TargetDetector,
}
use onboard_autonomy.Camera.Vision.{
  VisionMonitor, fresh_vision, process, larger, milliseconds, age_ms,
}

pub record ProcessedFrame (D : Type 0) : Type 0 where
  pub frame : CameraFrame
  pub observed_at : ℕ
  pub targets : List (TargetObservation D)

pub record CameraMonitor (C V D : Type 0) : Type 0 where
  pub source : C
  pub vision : Option (VisionMonitor V D)
  pub latest_processed_frame : Option (ProcessedFrame D)
  pub received_frames : ℕ
  pub dropped_before_processing : ℕ
  pub frames_with_capture_timestamp : ℕ
  pub valid_latency_samples : ℕ
  pub width : ℕ
  pub height : ℕ
  pub last_sequence : Option ℕ
  pub last_frame_observed_at : Option ℕ
  pub first_capture_at : Option ℕ
  pub last_capture_at : Option ℕ
  pub latest_latency_ms : Option D
  pub total_latency_ms : D
  pub maximum_latency_ms : D

pub record CameraSnapshot (D : Type 0) : Type 0 where
  pub phase : SourcePhase
  pub source : Text
  pub error : Text
  pub width : ℕ
  pub height : ℕ
  pub received_frames : ℕ
  pub dropped_before_processing : ℕ
  pub camera_restarts : ℕ
  pub frames_with_capture_timestamp : ℕ
  pub measured_fps : Option D
  pub latest_latency_ms : Option D
  pub average_latency_ms : Option D
  pub maximum_latency_ms : Option D
  pub latest_frame_age_ms : Option D

-- The frames skipped between the last one and this one.
unfoldable pub skipped : Option ℕ → ℕ → ℕ
skipped none sequence = 0
skipped (some last) sequence = if ltb (add64 last 1) sequence then gap64 sequence last else 0

module _ {V D : Type 0} ⦃fp : Floating D⦄ where
  initial_vision : Option V → Option (VisionMonitor V D)
  initial_vision none = none
  initial_vision (some v) = some (fresh_vision v)

module _ {D : Type 0} ⦃fp : Floating D⦄ where
  -- Frames over the time between the first and the last capture, where that is positive.
  measured_fps : ℕ → Option ℕ → Option ℕ → Option D
  measured_fps frames none last = none
  measured_fps frames (some first) none = none
  measured_fps frames (some first) (some last) =
      let seconds = fp.div (fp.of_int (sub_ℕ last first)) (fp.of_int (pos 1_000_000_000)) in
      if ltb 1 frames
      then (if fp.flt (fp.of_int (pos 0)) seconds
          then some (fp.div (fp.of_int (pos (frames - 1))) seconds)
          else none)
      else none

module _ {C V D : Type 0} ⦃fp : Floating D⦄ where
  unfoldable pub initial : C → Option V → CameraMonitor C V D
  unfolding initial_vision
  initial source detector = record {
    source = source;
    vision = initial_vision detector;
    latest_processed_frame = none;
    received_frames = 0;
    dropped_before_processing = 0;
    frames_with_capture_timestamp = 0;
    valid_latency_samples = 0;
    width = 0;
    height = 0;
    last_sequence = none;
    last_frame_observed_at = none;
    first_capture_at = none;
    last_capture_at = none;
    latest_latency_ms = none;
    total_latency_ms = fp.of_int (pos 0);
    maximum_latency_ms = fp.of_int (pos 0);
  }

  -- The counters of a frame, before the detector sees it.
  unfoldable pub count_frame : CameraFrame → ℕ → CameraMonitor C V D → CameraMonitor C V D
  count_frame frame now m = record m {
    dropped_before_processing =
        add64 m.dropped_before_processing (skipped m.last_sequence frame.sequence);
    last_sequence = some frame.sequence;
    received_frames = add64 m.received_frames 1;
    width = frame.width;
    height = frame.height;
    last_frame_observed_at = some now;
  }

  -- `latency_ms >= 0.0`
  unfoldable pub add_latency : D → CameraMonitor C V D → CameraMonitor C V D
  add_latency ms m =
      if fp.fle (fp.of_int (pos 0)) ms
      then record m {
        valid_latency_samples = add64 m.valid_latency_samples 1;
        latest_latency_ms = some ms;
        total_latency_ms = fp.add m.total_latency_ms ms;
        maximum_latency_ms = larger m.maximum_latency_ms ms;
      }
      else m

  unfoldable pub record_capture : Option ℕ → ℕ → CameraMonitor C V D → CameraMonitor C V D
  unfolding add_latency
  record_capture none received m = m
  record_capture (some captured) received m =
      add_latency (milliseconds (sub_ℕ received captured)) (record m {
        frames_with_capture_timestamp = add64 m.frames_with_capture_timestamp 1;
        first_capture_at =
            if has_value m.first_capture_at then m.first_capture_at else some captured;
        last_capture_at = some captured;
      })

  -- The end of `poll`, once the targets are known.
  unfoldable pub finish_frame :
      CameraFrame → List (TargetObservation D) → ℕ → CameraMonitor C V D → CameraMonitor C V D
  unfolding record_capture
  finish_frame frame targets now m = record (record_capture frame.captured_at frame.received_at m) {
    latest_processed_frame = some record { frame = frame; observed_at = now; targets = targets };
  }

  unfoldable pub after_detection :
      CameraFrame
      → ℕ
      → CameraMonitor C V D
      → VisionMonitor V D × Option Fault
      → CameraMonitor C V D × Option Fault
  after_detection frame now m (vision, some e) = (record m { vision = some vision }, some e)
  after_detection frame now m (vision, none) =
      (finish_frame frame vision.latest_targets now (record m { vision = some vision }), none)

  unfoldable pub detect_targets :
      TargetDetector V D
      → CameraFrame
      → ℕ
      → Option (VisionMonitor V D)
      → CameraMonitor C V D
      → CameraMonitor C V D × Option Fault
  detect_targets detector frame now none m = (finish_frame frame [] now m, none)
  detect_targets detector frame now (some vision) m =
      after_detection frame now m (process detector frame now vision)

  unfoldable pub poll_frame :
      TargetDetector V D
      → Option CameraFrame
      → ℕ
      → CameraMonitor C V D
      → CameraMonitor C V D × Option Fault
  poll_frame detector none now m = (m, none)
  poll_frame detector (some frame) now m =
      detect_targets detector frame now m.vision (count_frame frame now m)

  -- The monitor afterwards, also where the detector threw, and the exception.
  unfoldable pub poll :
      CameraSource C
      → TargetDetector V D
      → ℕ
      → CameraMonitor C V D
      → CameraMonitor C V D × Option Fault
  unfolding poll_frame detect_targets after_detection
  poll source detector now m =
      let (c, frame) = source.take_latest_frame m.source in
      poll_frame detector frame now (record m { source = c })

  unfoldable pub snapshot : CameraSource C → ℕ → CameraMonitor C V D → CameraSnapshot D
  unfolding measured_fps
  snapshot source now m =
      let status = source.status m.source in
      let sampled = ltb 0 m.valid_latency_samples in
      record {
        phase = status.phase;
        source = status.description;
        error = status.error;
        width = m.width;
        height = m.height;
        received_frames = m.received_frames;
        dropped_before_processing = max m.dropped_before_processing status.overwritten_frames;
        camera_restarts = status.restart_count;
        frames_with_capture_timestamp = m.frames_with_capture_timestamp;
        measured_fps =
            measured_fps m.frames_with_capture_timestamp m.first_capture_at m.last_capture_at;
        latest_latency_ms = m.latest_latency_ms;
        average_latency_ms =
            if sampled
            then some (fp.div m.total_latency_ms (fp.of_int (pos m.valid_latency_samples)))
            else none;
        maximum_latency_ms = if sampled then some m.maximum_latency_ms else none;
        latest_frame_age_ms = age_ms now m.last_frame_observed_at;
      }

module _ {C V D : Type 0} where
  unfoldable pub take_latest_processed_frame :
      CameraMonitor C V D → CameraMonitor C V D × Option (ProcessedFrame D)
  take_latest_processed_frame m =
      (record m { latest_processed_frame = none }, m.latest_processed_frame)

  unfoldable pub disable_target_detection : CameraMonitor C V D → CameraMonitor C V D
  disable_target_detection m = record m { vision = none }
