-- ===== src/Runner.antt =====
-- The event loop of the program: CompanionRunner.cpp and TerminationSignals.cpp.
use onboard_autonomy.Base.{
  ℕ, ◌+◌, Bool, true, false, not, Option, none, some, List, [], ◌∷◌, text, ltb, if◌then◌else◌,
  Fault, invalid_argument, Outcome, returned, thrown, ◌>>=◌,
}
pub mod Pacing
pub mod Stopping
pub mod Companion
mod Tests

pub data RuntimeCommand : Type 0 where
  shutdown : RuntimeCommand

pub data CameraPreviewStream : Type 0 where
  downward forward : CameraPreviewStream

-- What the sinks are given, each by its number, and the line on the error stream. A snapshot comes
-- with the time of the steady clock that it was taken at.
pub data Output (F S : Type 0) : Type 0 where
  preview : ℕ → CameraPreviewStream → F → Output F S
  consumed : ℕ → ℕ → S → Output F S
  forward_error : Fault → Output F S

-- CompanionApplication, as the runner uses it: `I` is what a poll reads, `F` a processed frame and
-- `S` a snapshot.
pub record Application (A I F S : Type 0) : Type 0 where
  pub poll : I → A → Outcome A
  pub take_latest_processed_camera_frame : A → A × Option F
  pub snapshot : ℕ → A → A × S

-- AsyncCameraMonitor, as the runner uses it.
pub record ForwardMonitor (M F : Type 0) : Type 0 where
  pub take_latest_error : M → M × Option Fault
  pub take_latest_processed_frame : M → M × Option F

-- The runner with `keep_running`, and what it gave its sinks, the newest first. A null sink is
-- `none`; `commands_read` is false without a command source.
pub record CompanionRunner (A M F S : Type 0) : Type 0 where
  pub application : A
  pub forward_camera_monitor : Option M
  pub commands_read : Bool
  pub snapshot_sinks : List (Option ℕ)
  pub preview_sinks : List (Option ℕ)
  pub snapshot_interval : ℕ
  pub next_snapshot : ℕ
  pub keep_running : Bool
  pub outputs : List (Output F S)

-- What a round of the loop meets: whether a signal comes before the first test and before the
-- second one, the commands that the source has, what the application reads, and the clock after its
-- poll.
pub record Round (I : Type 0) : Type 0 where
  pub signal_first : Bool
  pub commands : List RuntimeCommand
  pub signal_second : Bool
  pub inputs : I
  pub now : ℕ

-- A loop on sinks, past the null ones.
abbrev pub give : {O : Type 0} → (ℕ → O) → List (Option ℕ) → List O → List O
give make [] outputs = outputs
give make (none ∷ sinks) outputs = give make sinks outputs
give make (some sink ∷ sinks) outputs = give make sinks (make sink ∷ outputs)

module _ {A M F S : Type 0} where
  -- The last argument is the flag that TerminationSignals has set by then.
  unfoldable pub make_runner :
      ℕ
      → A
      → Option M
      → Bool
      → List (Option ℕ)
      → List (Option ℕ)
      → ℕ
      → Bool
      → Outcome (CompanionRunner A M F S)
  make_runner interval application monitor commands_read [] preview_sinks now keep_running =
      thrown (invalid_argument (text "at least one runtime snapshot sink is required"))
  make_runner interval application monitor commands_read (sink ∷ sinks) preview_sinks now
        keep_running =
      returned (record {
        application = application;
        forward_camera_monitor = monitor;
        commands_read = commands_read;
        snapshot_sinks = sink ∷ sinks;
        preview_sinks = preview_sinks;
        snapshot_interval = interval;
        next_snapshot = now;
        keep_running = keep_running;
        outputs = [];
      })

  abbrev pub stop_requested : CompanionRunner A M F S → Bool
  stop_requested r = not r.keep_running

  abbrev pub request_shutdown : CompanionRunner A M F S → CompanionRunner A M F S
  request_shutdown r = record r { keep_running = false }

  -- `handle_signal`, where a signal comes.
  abbrev pub receive : Bool → CompanionRunner A M F S → CompanionRunner A M F S
  receive false r = r
  receive true r = record r { keep_running = false }

  abbrev pub obey : List RuntimeCommand → CompanionRunner A M F S → CompanionRunner A M F S
  obey [] r = r
  obey (shutdown ∷ commands) r = obey commands (request_shutdown r)

  unfoldable pub handle_runtime_commands :
      List RuntimeCommand → CompanionRunner A M F S → CompanionRunner A M F S
  handle_runtime_commands commands r = if r.commands_read then obey commands r else r

  abbrev pub give_frame :
      CameraPreviewStream → Option F → CompanionRunner A M F S → CompanionRunner A M F S
  give_frame stream none r = r
  give_frame stream (some frame) r = record r {
    outputs = give (λ sink. preview sink stream frame) r.preview_sinks r.outputs;
  }

  abbrev pub report_error : Option Fault → CompanionRunner A M F S → CompanionRunner A M F S
  report_error none r = r
  report_error (some e) r = record r { outputs = forward_error e ∷ r.outputs }

  module _ {I : Type 0} (app : Application A I F S) (monitor : ForwardMonitor M F) where
    unfoldable pub publish_downward_camera_frame : CompanionRunner A M F S → CompanionRunner A M F S
    publish_downward_camera_frame r =
        let (a, processed) = app.take_latest_processed_camera_frame r.application in
        give_frame downward processed (record r { application = a })

    abbrev pub publish_forward : Option M → CompanionRunner A M F S → CompanionRunner A M F S
    publish_forward none r = r
    publish_forward (some m) r =
        let (m', error) = monitor.take_latest_error m in
        let (m'', processed) = monitor.take_latest_processed_frame m' in
        give_frame forward processed
          (report_error error (record r { forward_camera_monitor = some m'' }))

    unfoldable pub publish_forward_camera_frame : CompanionRunner A M F S → CompanionRunner A M F S
    publish_forward_camera_frame r = publish_forward r.forward_camera_monitor r

    unfoldable pub publish_camera_frames : CompanionRunner A M F S → CompanionRunner A M F S
    publish_camera_frames r = publish_forward_camera_frame (publish_downward_camera_frame r)

    unfoldable pub publish_snapshot : ℕ → S → CompanionRunner A M F S → CompanionRunner A M F S
    publish_snapshot now snapshot r = record r {
      outputs = give (λ sink. consumed sink now snapshot) r.snapshot_sinks r.outputs;
    }

    -- The end of a round; the sleep changes no state.
    unfoldable pub present : Bool → ℕ → CompanionRunner A M F S → CompanionRunner A M F S
    present true now r = r
    present false now r =
        let (a, snapshot) = app.snapshot now r.application in
        record (publish_snapshot now snapshot (record r { application = a })) {
          next_snapshot = now + r.snapshot_interval;
        }

    abbrev pub show : ℕ → CompanionRunner A M F S → CompanionRunner A M F S
    show now r = present (ltb now r.next_snapshot) now r

    -- The part of a round after both tests.
    abbrev pub work : Round I → CompanionRunner A M F S → Outcome (CompanionRunner A M F S)
    work i r = do
      a ← app.poll i.inputs r.application
      returned (show i.now (publish_camera_frames (record r { application = a })))

    -- The loop, with whether it goes on after the rounds that are given: `false` when `run` has
    -- returned 0.
    unfoldable pub after_commands :
        (CompanionRunner A M F S → Outcome (CompanionRunner A M F S × Bool))
        → Bool
        → Round I
        → CompanionRunner A M F S
        → Outcome (CompanionRunner A M F S × Bool)
    after_commands rest true i r = returned (r, false)
    after_commands rest false i r = do worked ← work i r; rest worked

    abbrev pub commanded : Round I → CompanionRunner A M F S → CompanionRunner A M F S
    commanded i r = receive i.signal_second (handle_runtime_commands i.commands r)

    unfoldable pub after_test :
        (CompanionRunner A M F S → Outcome (CompanionRunner A M F S × Bool))
        → Bool
        → Round I
        → CompanionRunner A M F S
        → Outcome (CompanionRunner A M F S × Bool)
    after_test rest true i r = returned (r, false)
    after_test rest false i r =
        after_commands rest (stop_requested (commanded i r)) i (commanded i r)

    unfoldable pub run :
        List (Round I) → CompanionRunner A M F S → Outcome (CompanionRunner A M F S × Bool)
    run [] r = returned (r, true)
    run (i ∷ rounds) r =
        after_test (run rounds) (stop_requested (receive i.signal_first r)) i
          (receive i.signal_first r)
