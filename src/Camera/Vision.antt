-- ===== src/Camera/Vision.antt =====
-- VisionMonitor (src/mission/cv/VisionMonitor.cpp, VisionSnapshot.hpp).
use onboard_autonomy.Base.{
  ℕ, ◌-◌, Bool, true, false, Option, none, some, List, [], ◌∷◌, Text, ℤ, pos, length, ltb, leb,
  if◌then◌else◌, Floating, Fault,
}
use onboard_autonomy.Camera.Ports.{
  add64, CameraFrame, TargetObservation, DetectionBatch, Detected, batch, detector_threw,
  TargetDetector,
}

pub record VisionMonitor (V D : Type 0) : Type 0 where
  pub detector : V
  pub processed_frames : ℕ
  pub frames_with_targets : ℕ
  pub total_targets : ℕ
  pub last_detection_at : Option ℕ
  pub latest_processing_ms : Option D
  pub total_processing_ms : D
  pub maximum_processing_ms : D
  pub latest_targets : List (TargetObservation D)

pub record VisionSnapshot (D : Type 0) : Type 0 where
  pub detector : Text
  pub processed_frames : ℕ
  pub frames_with_targets : ℕ
  pub total_targets : ℕ
  pub latest_processing_ms : Option D
  pub average_processing_ms : Option D
  pub maximum_processing_ms : Option D
  pub last_detection_age_ms : Option D
  pub latest_targets : List (TargetObservation D)

abbrev pub is_none_left {ℓ} : {A : Type ℓ} → List A → Bool
is_none_left [] = true
is_none_left (a ∷ rest) = false

module _ {D : Type 0} ⦃fp : Floating D⦄ where
  -- `std::max` on doubles.
  abbrev pub larger : D → D → D
  larger a b = if fp.flt a b then b else a

  -- A duration of nanoseconds as a double of milliseconds.
  abbrev pub milliseconds : ℤ → D
  milliseconds ns = fp.div (fp.of_int ns) (fp.of_int (pos 1_000_000))

  -- A duration of microseconds as a double of milliseconds.
  abbrev pub milliseconds_of_us : ℤ → D
  milliseconds_of_us us = fp.div (fp.of_int us) (fp.of_int (pos 1000))

  -- The age of an observation, unless it lies ahead.
  abbrev pub age_ms : ℕ → Option ℕ → Option D
  age_ms now none = none
  age_ms now (some t) = if leb t now then some (milliseconds (pos (now - t))) else none

  module _ {V : Type 0} where
    unfoldable pub fresh_vision : V → VisionMonitor V D
    fresh_vision detector = record {
      detector = detector;
      processed_frames = 0;
      frames_with_targets = 0;
      total_targets = 0;
      last_detection_at = none;
      latest_processing_ms = none;
      total_processing_ms = fp.of_int (pos 0);
      maximum_processing_ms = fp.of_int (pos 0);
      latest_targets = [];
    }

    -- What `process` does with a batch that the detector returned.
    unfoldable pub take_batch : DetectionBatch D → ℕ → VisionMonitor V D → VisionMonitor V D
    take_batch b now m =
        let ms = milliseconds_of_us b.processing_time in
        let counted = record m {
          processed_frames = add64 m.processed_frames 1;
          latest_processing_ms = some ms;
          total_processing_ms = fp.add m.total_processing_ms ms;
          maximum_processing_ms = larger m.maximum_processing_ms ms;
          latest_targets = b.targets;
          total_targets = add64 m.total_targets (length b.targets);
        } in
        if is_none_left b.targets then counted else record counted {
          frames_with_targets = add64 m.frames_with_targets 1;
          last_detection_at = some now;
        }

    finish : Detected D → ℕ → VisionMonitor V D → VisionMonitor V D × Option Fault
    finish (batch b) now m = (take_batch b now m, none)
    finish (detector_threw e) now m = (m, some e)

    -- The monitor, and the exception that the detector threw, if it did.
    unfoldable pub process :
        TargetDetector V D → CameraFrame → ℕ → VisionMonitor V D → VisionMonitor V D × Option Fault
    unfolding finish
    process detector frame now m =
        let (v, detected) = detector.detect m.detector frame in
        finish detected now (record m { detector = v })

    unfoldable pub vision_snapshot : TargetDetector V D → ℕ → VisionMonitor V D → VisionSnapshot D
    vision_snapshot detector now m = record {
      detector = detector.description m.detector;
      processed_frames = m.processed_frames;
      frames_with_targets = m.frames_with_targets;
      total_targets = m.total_targets;
      latest_processing_ms = m.latest_processing_ms;
      average_processing_ms =
          if ltb 0 m.processed_frames
          then some (fp.div m.total_processing_ms (fp.of_int (pos m.processed_frames)))
          else none;
      maximum_processing_ms =
          if ltb 0 m.processed_frames then some m.maximum_processing_ms else none;
      last_detection_age_ms = age_ms now m.last_detection_at;
      latest_targets = m.latest_targets;
    }
