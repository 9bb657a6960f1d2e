-- ===== src/Camera/Tests.antt =====
-- The camera theorems at a source that plays a list of frames and a detector that always throws.
use onboard_autonomy.Base.{
  ℕ, ◌+◌, ◌-◌, ◌*◌, ◌≡◌, refl, Option, none, some, List, [], ◌∷◌, text, ℤ, arith, external,
}
use onboard_autonomy.Fixtures.{sample_doubles}
use onboard_autonomy.Camera.Ports.{
  CameraFrame, CameraSource, TargetDetector, streaming, detector_threw,
}
use onboard_autonomy.Camera.Monitor.{skipped, CameraMonitor, initial, count_frame, poll}
use onboard_autonomy.Camera.Vision.{process, fresh_vision}
use onboard_autonomy.Camera.Worker.{Worker}
use onboard_autonomy.Camera.Counters.{
  count_frames, count_frames-conserves, iterations, iterations_contained,
}

abbrev numbered : ℕ → CameraFrame
numbered n = record {
  sequence = n;
  width = 640;
  height = 480;
  yuv420 = [];
  captured_at = some (1000 * n);
  received_at = 1000 * n + 500;
}

abbrev take_first : List CameraFrame → List CameraFrame × Option CameraFrame
take_first [] = ([], none)
take_first (f ∷ fs) = (fs, some f)

abbrev playback : CameraSource (List CameraFrame)
playback = record {
  take_latest_frame = take_first;
  status = λ frames. record {
    phase = streaming;
    description = text "playback";
    error = [];
    produced_frames = 0;
    overwritten_frames = 0;
    restart_count = 0;
  };
}

abbrev broken : TargetDetector ℕ ℤ
broken = record {
  detect = λ v frame. (v + 1, detector_threw (external "no model"));
  description = λ v. text "broken";
}

abbrev started : CameraMonitor (List CameraFrame) ℕ ℤ
started = initial (numbered 7 ∷ numbered 9 ∷ []) (some 0)

abbrev after_one : CameraMonitor (List CameraFrame) ℕ ℤ
after_one = count_frame (numbered 4) 0 started

-- 4, then 5, 9 and 12: three more frames, and five that never came.
count_frames-conserves_example :
    let n = count_frames (numbered 5 ∷ numbered 9 ∷ numbered 12 ∷ []) 10 after_one in
    n.received_frames + n.dropped_before_processing
    ≡ after_one.received_frames + after_one.dropped_before_processing + (12 - 4)
unfolding count_frame initial skipped
count_frames-conserves_example =
    count_frames-conserves (numbered 5 ∷ numbered 9 ∷ numbered 12 ∷ []) 10 4 after_one refl
      (omega arith, omega arith, (omega arith, omega arith, (omega arith, omega arith, tt)))
      (omega arith)

abbrev watching : Worker (List CameraFrame) ℕ ℤ
watching = record { monitor = started; latest_frame = none; latest_error = none }

iterations_contained_example :
    ((iterations playback broken (10 ∷ 20 ∷ 30 ∷ []) watching).latest_error
      ≡ some (external "no model"))
    × ((iterations playback broken (10 ∷ 20 ∷ 30 ∷ []) watching).monitor.vision ≡ none)
unfolding poll initial process fresh_vision
iterations_contained_example =
    iterations_contained playback broken 10 (20 ∷ 30 ∷ []) watching (external "no model") refl
