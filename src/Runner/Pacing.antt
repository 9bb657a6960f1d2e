-- ===== src/Runner/Pacing.antt =====
-- The snapshots that CompanionRunner.cpp gives its sinks.
use onboard_autonomy.Base.{
  ℕ, ◌+◌, ◌≤◌, ◌≡◌, refl, sym, ◌∙◌, Bool, true, false, Option, none, some, List, [], ◌∷◌, ◌++◌, ltb,
  if◌then◌else◌, arith, All, Fault, Outcome, returned, thrown, IfReturns, >>=-IfReturns,
}
use mathlib.Core.List.{append_assoc}
use mathlib.Core.Path.{subst, ap₂}
use onboard_autonomy.Runner.{
  CameraPreviewStream, Output, preview, consumed, forward_error, Application, ForwardMonitor,
  CompanionRunner, make_runner, Round, RuntimeCommand, shutdown, stop_requested, receive, obey,
  handle_runtime_commands, give, give_frame, report_error, publish_downward_camera_frame,
  publish_forward, publish_forward_camera_frame, publish_camera_frames, publish_snapshot, present,
  work, after_commands, commanded, after_test, run,
}

-- The snapshots that were given: to which sink, when they were taken, and which, the newest first.
unfoldable pub given : {F S : Type 0} → List (Output F S) → List (ℕ × ℕ × S)
given [] = []
given (preview sink stream frame ∷ outputs) = given outputs
given (consumed sink time snapshot ∷ outputs) = (sink, time, snapshot) ∷ given outputs
given (forward_error e ∷ outputs) = given outputs

-- One snapshot for each sink that is not null, the last sink first.
abbrev pub delivered : {S : Type 0} → List (Option ℕ) → ℕ → S → List (ℕ × ℕ × S)
delivered [] time snapshot = []
delivered (none ∷ sinks) time snapshot = delivered sinks time snapshot
delivered (some sink ∷ sinks) time snapshot =
    delivered sinks time snapshot ++ ((sink, time, snapshot) ∷ [])

-- Each of the snapshots that were taken for each sink.
abbrev pub all_delivered : {S : Type 0} → List (Option ℕ) → List (ℕ × S) → List (ℕ × ℕ × S)
all_delivered sinks [] = []
all_delivered sinks ((time, snapshot) ∷ taken) =
    delivered sinks time snapshot ++ all_delivered sinks taken

abbrev pub Before : {S : Type 0} → ℕ → ℕ → List (ℕ × S) → Type 0
Before interval time = All (λ t. t.0 + interval ≤ time)

-- Each was taken the interval after those before it, or later.
abbrev pub Spaced : {S : Type 0} → ℕ → List (ℕ × S) → Type 0
Spaced interval [] = Unit {0}
Spaced interval ((time, snapshot) ∷ taken) = Before interval time taken × Spaced interval taken

-- What the sinks were given comes of snapshots taken the interval apart, the next one due at `next`.
pub record Deliveries {S : Type 0} (interval : ℕ) (sinks : List (Option ℕ)) (next : ℕ)
    (log : List (ℕ × ℕ × S)) : Type 0 where
  pub taken : List (ℕ × S)
  pub apart : Spaced interval taken
  pub due : Before interval next taken
  pub complete : log ≡ all_delivered sinks taken

module _ {F S : Type 0} where
  given-preview :
      (sinks : List (Option ℕ)) (stream : CameraPreviewStream) (frame : F)
      (outputs : List (Output F S))
      → given (give (λ sink. preview sink stream frame) sinks outputs) ≡ given outputs
  unfolding given
  given-preview [] stream frame outputs = refl
  given-preview (none ∷ sinks) stream frame outputs = given-preview sinks stream frame outputs
  given-preview (some sink ∷ sinks) stream frame outputs =
      given-preview sinks stream frame (preview sink stream frame ∷ outputs)

  given-consumed :
      (now : ℕ) (snapshot : S) (sinks : List (Option ℕ)) (outputs : List (Output F S))
      → given (give (λ sink. consumed sink now snapshot) sinks outputs)
        ≡ delivered sinks now snapshot ++ given outputs
  unfolding given
  given-consumed now snapshot [] outputs = refl
  given-consumed now snapshot (none ∷ sinks) outputs = given-consumed now snapshot sinks outputs
  given-consumed now snapshot (some sink ∷ sinks) outputs =
      given-consumed now snapshot sinks (consumed sink now snapshot ∷ outputs)
      ∙ sym
          (append_assoc (delivered sinks now snapshot) ((sink, now, snapshot) ∷ []) (given outputs))

due_later :
    {S : Type 0} (interval next later : ℕ) (taken : List (ℕ × S))
    → next ≤ later
    → Before interval next taken
    → Before interval later taken
due_later interval next later [] h b = tt
due_later interval next later (t ∷ taken) h (b, bs) =
    (omega arith, due_later interval next later taken h bs)

any_result : {A : Type 0} (m : Outcome A) → IfReturns (λ a. Unit {0}) m
any_result (returned a) = tt
any_result (thrown f) = tt

module _ {A M F S : Type 0} (interval : ℕ) (sinks : List (Option ℕ)) where
  abbrev pub IsPaced : CompanionRunner A M F S → Type 0
  IsPaced r =
      (r.snapshot_interval ≡ interval)
      × (r.snapshot_sinks ≡ sinks)
      × Deliveries interval sinks r.next_snapshot (given r.outputs)

  receive-IsPaced : (b : Bool) (r : CompanionRunner A M F S) → IsPaced r → IsPaced (receive b r)
  receive-IsPaced true r h = h
  receive-IsPaced false r h = h

  obey-IsPaced :
      (commands : List RuntimeCommand) (r : CompanionRunner A M F S)
      → IsPaced r
      → IsPaced (obey commands r)
  obey-IsPaced [] r h = h
  obey-IsPaced (shutdown ∷ commands) r h = obey-IsPaced commands _ h

  handle_runtime_commands-IsPaced :
      (commands : List RuntimeCommand) (r : CompanionRunner A M F S)
      → IsPaced r
      → IsPaced (handle_runtime_commands commands r)
  unfolding handle_runtime_commands
  handle_runtime_commands-IsPaced commands r h = by_source r.commands_read
    where
      by_source : (b : Bool) → IsPaced (if b then obey commands r else r)
      by_source true = obey-IsPaced commands r h
      by_source false = h

  give_frame-IsPaced :
      (stream : CameraPreviewStream) (o : Option F) (r : CompanionRunner A M F S)
      → IsPaced r
      → IsPaced (give_frame stream o r)
  give_frame-IsPaced stream none r h = h
  give_frame-IsPaced stream (some frame) r (e, s, h) = (
    e,
    s,
    subst (Deliveries interval sinks r.next_snapshot)
        (sym (given-preview r.preview_sinks stream frame r.outputs)) h,
  )

  report_error-IsPaced :
      (o : Option Fault) (r : CompanionRunner A M F S) → IsPaced r → IsPaced (report_error o r)
  unfolding given
  report_error-IsPaced none r h = h
  report_error-IsPaced (some e) r h = h

  module _ {I : Type 0} (app : Application A I F S) (monitor : ForwardMonitor M F) where
    publish_forward-IsPaced :
        (o : Option M) (r : CompanionRunner A M F S)
        → IsPaced r
        → IsPaced (publish_forward app monitor o r)
    publish_forward-IsPaced none r h = h
    publish_forward-IsPaced (some m) r h =
        give_frame-IsPaced CameraPreviewStream.forward _ _ (report_error-IsPaced _ _ h)

    publish_camera_frames-IsPaced :
        (r : CompanionRunner A M F S) → IsPaced r → IsPaced (publish_camera_frames app monitor r)
    unfolding publish_camera_frames publish_forward_camera_frame publish_downward_camera_frame
    publish_camera_frames-IsPaced r h =
        publish_forward-IsPaced _ _ (give_frame-IsPaced CameraPreviewStream.downward _ _ h)

    present-IsPaced :
        (early : Bool) (now : ℕ) (r : CompanionRunner A M F S)
        → ltb now r.next_snapshot ≡ early
        → IsPaced r
        → IsPaced (present app monitor early now r)
    unfolding present publish_snapshot
    present-IsPaced true now r e h = h
    present-IsPaced false now r e (same, to, h) = (
      same,
      to,
      record {
        taken = (now, snapshot) ∷ h.taken;
        apart = (due_later interval r.next_snapshot now h.taken late h.due, h.apart);
        due = (
          omega (arith, same),
          due_later interval r.next_snapshot (now + r.snapshot_interval) h.taken
              (omega (arith, late)) h.due,
        );
        complete =
            given-consumed now snapshot r.snapshot_sinks r.outputs
            ∙ ap₂ (λ ss log. delivered ss now snapshot ++ log) to h.complete;
      },
    )
      where
        snapshot : S
        snapshot = (app.snapshot now r.application).1

        late : r.next_snapshot ≤ now
        late = ground arith

    after_test-IsPaced :
        (rest : CompanionRunner A M F S → Outcome (CompanionRunner A M F S × Bool))
        → ((r : CompanionRunner A M F S) → IsPaced r → IfReturns (λ s. IsPaced s.0) (rest r))
        → (stop : Bool) (i : Round I) (r : CompanionRunner A M F S) → IsPaced r
        → IfReturns (λ s. IsPaced s.0) (after_test app monitor rest stop i r)
    unfolding after_test after_commands
    after_test-IsPaced rest k true i r h = h
    after_test-IsPaced rest k false i r h =
        by_stop (stop_requested commanded_runner) commanded_runner
          (receive-IsPaced i.signal_second _ (handle_runtime_commands-IsPaced i.commands r h))
      where
        commanded_runner : CompanionRunner A M F S
        commanded_runner = commanded app monitor i r

        by_stop :
            (stop : Bool) (r : CompanionRunner A M F S)
            → IsPaced r
            → IfReturns (λ s. IsPaced s.0) (after_commands app monitor rest stop i r)
        by_stop true r h = h
        by_stop false r h =
            >>=-IfReturns IsPaced (λ s. IsPaced s.0) (work app monitor i r) rest
              (>>=-IfReturns (λ a. Unit {0}) IsPaced (app.poll i.inputs r.application) _
                (any_result _)
                (λ a _. present-IsPaced _ i.now _ refl (publish_camera_frames-IsPaced _ h)))
              k

    -- If what a runner gave its sinks so far are snapshots taken the snapshot interval apart or
    -- more, with the next one due no sooner than the interval after them, each given once to each
    -- sink that is not null, in the order of the sinks, then the same holds after any rounds,
    -- whatever they meet, unless the runner throws.
    pub run-IsPaced :
        (rounds : List (Round I)) (r : CompanionRunner A M F S)
        → IsPaced r
        → IfReturns (λ s. IsPaced s.0) (run app monitor rounds r)
    unfolding run
    run-IsPaced [] r h = h
    run-IsPaced (i ∷ rounds) r h =
        after_test-IsPaced (run app monitor rounds) (λ r k. run-IsPaced rounds r k) _ i _
          (receive-IsPaced i.signal_first r h)

-- A new runner has given nothing yet.
make_runner-IsPaced :
    {A M : Type 0} (F S : Type 0) (interval : ℕ) (sinks : List (Option ℕ)) (application : A)
    (monitor : Option M) (commands_read : Bool) (preview_sinks : List (Option ℕ)) (now : ℕ)
    (keep_running : Bool)
    → IfReturns (IsPaced {F = F} {S = S} interval sinks) (
        make_runner interval application monitor commands_read sinks preview_sinks now keep_running)
unfolding make_runner given
make_runner-IsPaced F S interval [] application monitor commands_read preview_sinks now
      keep_running =
    tt
make_runner-IsPaced F S interval (s ∷ ss) application monitor commands_read preview_sinks now
      keep_running =
    (refl, refl, record { taken = []; apart = tt; due = tt; complete = refl })
