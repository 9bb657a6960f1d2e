-- ===== src/Camera/Counters.antt =====
-- The frame counters of CameraMonitor.cpp, and the errors of AsyncCameraMonitor.cpp.
use onboard_autonomy.Base.{
  ℕ, ◌+◌, ◌-◌, ◌≤◌, ◌<◌, ◌≡◌, refl, Option, none, some, List, [], ◌∷◌, arith, Floating, Fault,
  sub_ℕ, ◌∙◌,
}
use onboard_autonomy.Camera.Ports.{u64_mod, CameraFrame, CameraSource, TargetDetector}
use onboard_autonomy.Camera.Vision.{VisionMonitor, milliseconds}
use onboard_autonomy.Camera.Monitor.{
  CameraMonitor, ProcessedFrame, skipped, count_frame, finish_frame, poll,
  take_latest_processed_frame, disable_target_detection, record_capture, add_latency,
  detect_targets, poll_frame,
}
use onboard_autonomy.Camera.Worker.{Worker, publish, publish_frame, handle_failure, iterate}

-- Increasing sequence numbers below 2^64.
abbrev pub Increasing : ℕ → List CameraFrame → Type 0
Increasing last [] = Unit {0}
Increasing last (f ∷ fs) = (last < f.sequence) × (f.sequence < u64_mod) × Increasing f.sequence fs

-- The sequence number of the last frame.
abbrev pub last_of : ℕ → List CameraFrame → ℕ
last_of last [] = last
last_of last (f ∷ fs) = last_of f.sequence fs

skipped-lt :
    (last sequence : ℕ)
    → last < sequence
    → sequence < u64_mod
    → skipped (some last) sequence ≡ sequence - last - 1
unfolding skipped
skipped-lt last sequence h k = ground arith

last_of-le : (last : ℕ) (fs : List CameraFrame) → Increasing last fs → last ≤ last_of last fs
last_of-le last [] i = omega arith
last_of-le last (f ∷ fs) (h, k, i) = omega (arith, last_of-le f.sequence fs i)

module _ {C V D : Type 0} ⦃fp : Floating D⦄ where
  -- The frames of a stream, counted one after another.
  unfoldable pub count_frames : List CameraFrame → ℕ → CameraMonitor C V D → CameraMonitor C V D
  count_frames [] now m = m
  count_frames (f ∷ fs) now m = count_frames fs now (count_frame f now m)

  count_frame-step :
      (f : CameraFrame) (now last : ℕ) (m : CameraMonitor C V D)
      → m.last_sequence ≡ some last
      → last < f.sequence
      → f.sequence < u64_mod
      → m.received_frames + m.dropped_before_processing + (f.sequence - last) < u64_mod
      → let n = count_frame f now m in
        (n.last_sequence ≡ some f.sequence)
        × (n.received_frames + n.dropped_before_processing
            ≡ m.received_frames + m.dropped_before_processing + (f.sequence - last))
  unfolding count_frame
  count_frame-step f now last m e h k fits =
      (refl, rw e (omega (arith, skipped-lt last f.sequence h k)))

  -- After a frame was counted, over a stream whose numbers increase, each further number is either a
  -- received frame or a dropped one, as long as the 64-bit counters hold them.
  pub count_frames-conserves :
      (fs : List CameraFrame) (now last : ℕ) (m : CameraMonitor C V D)
      → m.last_sequence ≡ some last
      → Increasing last fs
      → m.received_frames + m.dropped_before_processing + (last_of last fs - last) < u64_mod
      → let n = count_frames fs now m in
        n.received_frames + n.dropped_before_processing
        ≡ m.received_frames + m.dropped_before_processing + (last_of last fs - last)
  unfolding count_frames
  count_frames-conserves [] now last m e i fits = omega arith
  count_frames-conserves (f ∷ fs) now last m e (h, k, i) fits =
      let up = last_of-le f.sequence fs i in
      let (at, sum) = count_frame-step f now last m e h k (omega arith) in
      let rest =
        count_frames-conserves fs now f.sequence (count_frame f now m) at i (omega arith) in
      omega arith

module _ {C V D : Type 0} ⦃fp : Floating D⦄ where
  add_latency-vision : (ms : D) (m : CameraMonitor C V D) → (add_latency ms m).vision ≡ m.vision
  unfolding add_latency
  add_latency-vision ms m = ground arith

  record_capture-vision :
      (captured : Option ℕ) (received : ℕ) (m : CameraMonitor C V D)
      → (record_capture captured received m).vision ≡ m.vision
  unfolding record_capture
  record_capture-vision none received m = refl
  record_capture-vision (some captured) received m =
      add_latency-vision (milliseconds (sub_ℕ received captured)) _

  detect_targets-blind :
      (detector : TargetDetector V D) (frame : CameraFrame) (now : ℕ)
      (vision : Option (VisionMonitor V D)) (m : CameraMonitor C V D)
      → vision ≡ none
      → m.vision ≡ none
      → ((detect_targets detector frame now vision m).1 ≡ none)
        × ((detect_targets detector frame now vision m).0.vision ≡ none)
  unfolding detect_targets finish_frame
  detect_targets-blind detector frame now none m e b =
      (refl, record_capture-vision frame.captured_at frame.received_at m ∙ b)
  detect_targets-blind detector frame now (some v) m e b = cc

  poll_frame-blind :
      (detector : TargetDetector V D) (frame : Option CameraFrame) (now : ℕ)
      (m : CameraMonitor C V D)
      → m.vision ≡ none
      → ((poll_frame detector frame now m).1 ≡ none)
        × ((poll_frame detector frame now m).0.vision ≡ none)
  unfolding poll_frame count_frame
  poll_frame-blind detector none now m e = (refl, e)
  poll_frame-blind detector (some frame) now m e =
      detect_targets-blind detector frame now m.vision (count_frame frame now m) e e

  publish_frame-keeps :
      (m : CameraMonitor C V D) (frame : Option (ProcessedFrame D)) (w : Worker C V D)
      → ((publish_frame (m, frame) w).latest_error ≡ w.latest_error)
        × ((publish_frame (m, frame) w).monitor.vision ≡ m.vision)
  unfolding publish_frame
  publish_frame-keeps m none w = (refl, refl)
  publish_frame-keeps m (some frame) w = (refl, refl)

  handle_failure-none :
      (m : CameraMonitor C V D) (fault : Option Fault) (w : Worker C V D)
      → fault ≡ none
      → ((handle_failure (m, fault) w).latest_error ≡ w.latest_error)
        × ((handle_failure (m, fault) w).monitor.vision ≡ m.vision)
  unfolding handle_failure
  handle_failure-none m none w e = (refl, refl)
  handle_failure-none m (some f) w e = cc

  handle_failure-some :
      (m : CameraMonitor C V D) (fault : Option Fault) (w : Worker C V D) (f : Fault)
      → fault ≡ some f
      → ((handle_failure (m, fault) w).latest_error ≡ some f)
        × ((handle_failure (m, fault) w).monitor.vision ≡ none)
  unfolding handle_failure disable_target_detection
  handle_failure-some m none w f e = cc
  handle_failure-some m (some g) w f e = (e, refl)

module _ {C V D : Type 0} ⦃fp : Floating D⦄ (source : CameraSource C)
    (detector : TargetDetector V D) where
  -- Once the worker has no detector, its iterations report no further error, and leave it without
  -- one.
  pub iterate-disabled :
      (now : ℕ) (w : Worker C V D)
      → w.monitor.vision ≡ none
      → ((iterate source detector now w).latest_error ≡ w.latest_error)
        × ((iterate source detector now w).monitor.vision ≡ none)
  unfolding iterate publish poll take_latest_processed_frame
  iterate-disabled now w e =
      let (c, frame) = source.take_latest_frame w.monitor.source in
      let (m, fault) = poll_frame detector frame now (record w.monitor { source = c }) in
      let (quiet, blind) =
        poll_frame-blind detector frame now (record w.monitor { source = c }) e in
      let (same_error, same_vision) = handle_failure-none m fault w quiet in
      let v = handle_failure (m, fault) w in
      let (kept, seen) =
        publish_frame-keeps (record v.monitor { latest_processed_frame = none })
          v.monitor.latest_processed_frame v in
      (kept ∙ same_error, seen ∙ same_vision ∙ blind)

  iterate-contains :
      (now : ℕ) (w : Worker C V D) (e : Fault)
      → (poll source detector now w.monitor).1 ≡ some e
      → ((iterate source detector now w).latest_error ≡ some e)
        × ((iterate source detector now w).monitor.vision ≡ none)
  unfolding iterate publish take_latest_processed_frame
  iterate-contains now w e h =
      let (m, fault) = poll source detector now w.monitor in
      let (stored, blind) = handle_failure-some m fault w e h in
      let v = handle_failure (m, fault) w in
      let (kept, seen) =
        publish_frame-keeps (record v.monitor { latest_processed_frame = none })
          v.monitor.latest_processed_frame v in
      (kept ∙ stored, seen ∙ blind)

  -- Iterations at these times, one after another.
  unfoldable pub iterations : List ℕ → Worker C V D → Worker C V D
  iterations [] w = w
  iterations (now ∷ times) w = iterations times (iterate source detector now w)

  iterations-disabled :
      (times : List ℕ) (w : Worker C V D)
      → w.monitor.vision ≡ none
      → ((iterations times w).latest_error ≡ w.latest_error)
        × ((iterations times w).monitor.vision ≡ none)
  unfolding iterations
  iterations-disabled [] w b = (refl, b)
  iterations-disabled (now ∷ times) w b =
      let (same_error, blind) = iterate-disabled now w b in
      let (kept, still_blind) = iterations-disabled times (iterate source detector now w) blind in
      (kept ∙ same_error, still_blind)

  -- If an iteration's poll throws, its exception is the error stored after any number of further
  -- iterations, whatever the camera and the detector do in them: the worker has no detector from then
  -- on, and none of them stores another error.
  pub iterations_contained :
      (now : ℕ) (times : List ℕ) (w : Worker C V D) (e : Fault)
      → (poll source detector now w.monitor).1 ≡ some e
      → ((iterations (now ∷ times) w).latest_error ≡ some e)
        × ((iterations (now ∷ times) w).monitor.vision ≡ none)
  unfolding iterations
  iterations_contained now times w e h =
      let (stored, blind) = iterate-contains now w e h in
      let (kept, still_blind) = iterations-disabled times (iterate source detector now w) blind in
      (kept ∙ stored, still_blind)
