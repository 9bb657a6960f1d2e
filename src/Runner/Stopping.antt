-- ===== src/Runner/Stopping.antt =====
-- The requests to stop that CompanionRunner.cpp tests for.
use onboard_autonomy.Base.{
  ◌≡◌, refl, sym, ap, ◌∙◌, Bool, true, false, ◌&&◌, ◌||◌, List, [], ◌∷◌, if◌then◌else◌, Outcome,
  returned,
}
use onboard_autonomy.Runner.{
  Application, ForwardMonitor, CompanionRunner, Round, RuntimeCommand, shutdown, stop_requested,
  receive, obey, handle_runtime_commands, after_commands, commanded, after_test, run,
}

abbrev some_command : List RuntimeCommand → Bool
some_command [] = false
some_command (command ∷ commands) = true

or_true : (a : Bool) → (a || true) ≡ true
or_true true = refl
or_true false = refl

or_false : (a : Bool) → (a || false) ≡ a
or_false true = refl
or_false false = refl

or_assoc : (a b c : Bool) → ((a || b) || c) ≡ (a || (b || c))
or_assoc true b c = refl
or_assoc false b c = refl

module _ {A M F S : Type 0} where
  -- A stop was asked for before, or comes by a signal or as a command that is read.
  abbrev pub asked_to_stop : {I : Type 0} → Round I → CompanionRunner A M F S → Bool
  asked_to_stop i r =
      stop_requested r
      || (i.signal_first || ((r.commands_read && some_command i.commands) || i.signal_second))

  -- The application and the sinks as they were.
  abbrev pub Untouched : CompanionRunner A M F S → CompanionRunner A M F S → Type 0
  Untouched r r' = (r'.application ≡ r.application) × (r'.outputs ≡ r.outputs)

  receive-stop :
      (b : Bool) (r : CompanionRunner A M F S)
      → stop_requested (receive b r) ≡ (stop_requested r || b)
  receive-stop true r = sym (or_true (stop_requested r))
  receive-stop false r = sym (or_false (stop_requested r))

  receive-Untouched :
      (b : Bool) (r q : CompanionRunner A M F S) → Untouched r q → Untouched r (receive b q)
  receive-Untouched true r q h = h
  receive-Untouched false r q h = h

  obey-stop :
      (commands : List RuntimeCommand) (r : CompanionRunner A M F S)
      → stop_requested (obey commands r) ≡ (stop_requested r || some_command commands)
  obey-stop [] r = sym (or_false (stop_requested r))
  obey-stop (shutdown ∷ commands) r = obey-stop commands _ ∙ sym (or_true (stop_requested r))

  obey-Untouched :
      (commands : List RuntimeCommand) (r q : CompanionRunner A M F S)
      → Untouched r q
      → Untouched r (obey commands q)
  obey-Untouched [] r q h = h
  obey-Untouched (shutdown ∷ commands) r q h = obey-Untouched commands r _ h

  handled-stop :
      (read : Bool) (commands : List RuntimeCommand) (r : CompanionRunner A M F S)
      → stop_requested (if read then obey commands r else r)
        ≡ (stop_requested r || (read && some_command commands))
  handled-stop true commands r = obey-stop commands r
  handled-stop false commands r = sym (or_false (stop_requested r))

  handled-Untouched :
      (read : Bool) (commands : List RuntimeCommand) (r q : CompanionRunner A M F S)
      → Untouched r q
      → Untouched r (if read then obey commands q else q)
  handled-Untouched true commands r q h = obey-Untouched commands r q h
  handled-Untouched false commands r q h = h

  module _ {I : Type 0} (app : Application A I F S) (monitor : ForwardMonitor M F) where
    commanded-stop :
        (first : Bool) (i : Round I) (r : CompanionRunner A M F S)
        → stop_requested (commanded app monitor i (receive first r)) ≡ (
            stop_requested r
            || (first || ((r.commands_read && some_command i.commands) || i.signal_second)))
    unfolding handle_runtime_commands
    commanded-stop true i r =
        receive-stop i.signal_second _
        ∙ ap (λ b. b || i.signal_second) (handled-stop r.commands_read i.commands _)
        ∙ sym (or_true (stop_requested r))
    commanded-stop false i r =
        receive-stop i.signal_second _
        ∙ ap (λ b. b || i.signal_second) (handled-stop r.commands_read i.commands r)
        ∙ or_assoc (stop_requested r) (r.commands_read && some_command i.commands) i.signal_second

    -- What the loop does from a round on.
    abbrev Ends : CompanionRunner A M F S → Outcome (CompanionRunner A M F S × Bool) → Type 0
    Ends r m = (r' : CompanionRunner A M F S) × (m ≡ returned (r', false)) × Untouched r r'

    after_test-Ends :
        (rest : CompanionRunner A M F S → Outcome (CompanionRunner A M F S × Bool))
        → (stop : Bool) (i : Round I) (r q : CompanionRunner A M F S) → Untouched r q
        → stop_requested (commanded app monitor i q) ≡ true
        → Ends r (after_test app monitor rest stop i q)
    unfolding after_test after_commands handle_runtime_commands
    after_test-Ends rest true i r q h e = (q, refl, h)
    after_test-Ends rest false i r q h e = (
      commanded app monitor i q,
      ap (λ b. after_commands app monitor rest b i (commanded app monitor i q)) e,
      receive-Untouched i.signal_second r _ (handled-Untouched q.commands_read i.commands r q h),
    )

    -- A stop that was asked for before a round, that comes by a signal before one of its two tests, or
    -- that is read as a command ends the loop in that round, before the application is polled, a
    -- sink is given anything or a later round begins.
    pub run-Ends :
        (i : Round I) (rounds : List (Round I)) (r : CompanionRunner A M F S)
        → asked_to_stop i r ≡ true
        → (r' : CompanionRunner A M F S) × (run app monitor (i ∷ rounds) r ≡ returned (r', false))
          × Untouched r r'
    unfolding run
    run-Ends i rounds r asked =
        after_test-Ends (run app monitor rounds) _ i r (receive i.signal_first r)
          (receive-Untouched i.signal_first r r (refl, refl))
          (commanded-stop i.signal_first i r ∙ asked)
