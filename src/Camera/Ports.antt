-- ===== src/Camera/Ports.antt =====
-- CameraSource.hpp, TargetObservation.hpp and TargetDetector.hpp: what a camera and a detector give.
-- Times of the system clock are nanoseconds; 64-bit counters wrap.
use onboard_autonomy.Base.{ℕ, ◌+◌, ◌-◌, ◌%◌, Option, List, Text, ℤ, Fault}

abbrev pub u64_mod : ℕ
u64_mod = 18_446_744_073_709_551_616

-- `++n` and `n += k` on `std::uint64_t`
abbrev pub add64 : ℕ → ℕ → ℕ
add64 n k = (n + k) % u64_mod

-- `a - b - 1U` on `std::uint64_t`
abbrev pub gap64 : ℕ → ℕ → ℕ
gap64 a b = (a + u64_mod + u64_mod - b - 1) % u64_mod

pub data SourcePhase : Type 0 where
  starting streaming reconnecting stopped failed : SourcePhase

pub record CameraFrame : Type 0 where
  pub sequence : ℕ
  pub width : ℕ
  pub height : ℕ
  pub yuv420 : List ℕ
  pub captured_at : Option ℕ
  pub received_at : ℕ

pub record SourceStatus : Type 0 where
  pub phase : SourcePhase
  pub description : Text
  pub error : Text
  pub produced_frames : ℕ
  pub overwritten_frames : ℕ
  pub restart_count : ℕ

-- A camera source with its state `C`.
pub record CameraSource (C : Type 0) : Type 0 where
  pub take_latest_frame : C → C × Option CameraFrame
  pub status : C → SourceStatus

pub record ImagePoint (D : Type 0) : Type 0 where
  pub x_px : D
  pub y_px : D

pub record TargetObservation (D : Type 0) : Type 0 where
  pub id : ℤ
  pub family : Text
  pub center : ImagePoint D
  pub corners : List (ImagePoint D)
  pub confidence_percent : D

pub record DetectionBatch (D : Type 0) : Type 0 where
  pub frame_sequence : ℕ
  pub captured_at : Option ℕ
  pub detected_at : ℕ
  -- microseconds
  pub processing_time : ℤ
  pub targets : List (TargetObservation D)

pub data Detected (D : Type 0) : Type 0 where
  batch : DetectionBatch D → Detected D
  detector_threw : Fault → Detected D

-- A target detector with its state `V`; it may throw.
pub record TargetDetector (V D : Type 0) : Type 0 where
  pub detect : V → CameraFrame → V × Detected D
  pub description : V → Text
