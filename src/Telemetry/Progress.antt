-- ===== src/Telemetry/Progress.antt =====
-- Sessions of TelemetryStreamConfigurator.cpp in which every request is answered, or none.
use onboard_autonomy.Base.{
  ℕ, ◌+◌, ◌≤◌, ◌<◌, ◌≡◌, refl, ◌∙◌, true, false, Option, none, some, List, [], ◌∷◌, ◌++◌, map, ◌⊎◌,
  arith, holds, get_elem?, Outcome, returned, length, Returns,
}
use onboard_autonomy.Mavlink.Protocol.{mav_cmd_set_message_interval, mav_result_accepted}
use onboard_autonomy.Mavlink.Messages.{CommandAck}
use onboard_autonomy.Mavlink.Encoder.{Bytes, Outgoing, companion_component_id}
use onboard_autonomy.Telemetry.{
  StreamRequest, Configurator, configuring, active, failed, maximum_attempts,
  acknowledgement_timeout, stream_requests, initial, reset, begin, request_frame, check_deadline,
  continue_setup, update, on_command_ack, complete_request,
}
use onboard_autonomy.Telemetry.Invariant.{stream_requests-get, send_request_lem}
use onboard_autonomy.Telemetry.Session.{Event, polled, acked, step, run}

-- The vehicle accepts a request; the answer is addressed to no system or the vehicle's own, and to no
-- component or the companion.
abbrev pub Accepts : ℕ → CommandAck → Type 0
Accepts vehicle ack =
    (ack.command ≡ mav_cmd_set_message_interval)
    × (ack.result ≡ mav_result_accepted)
    × (ack.source_system ≡ vehicle)
    × ((ack.target_system ≡ 0) ⊎ (ack.target_system ≡ vehicle))
    × ((ack.target_component ≡ 0) ⊎ (ack.target_component ≡ companion_component_id))

-- The next stream is about to be requested for the first time.
pub record IsReady (vehicle : ℕ) (c : Configurator) : Type 0 where
  pub setting_up : c.phase ≡ configuring
  pub known : c.vehicle_system_id ≡ some vehicle
  pub fresh : c.attempt ≡ 0
  pub resting : c.awaiting_ack ≡ false
  pub in_step : c.current_request ≡ c.completed_requests
  pub unfinished : c.completed_requests < 6

-- The configurator after an attempt sent at `now`.
abbrev pub sent_at : ℕ → Configurator → Configurator
sent_at now c = record c {
  attempt = c.attempt + 1;
  awaiting_ack = true;
  acknowledgement_deadline = now + acknowledgement_timeout;
}

holds_known : (o : Option ℕ) (vehicle : ℕ) → o ≡ some vehicle → holds o vehicle ≡ true
holds_known o vehicle b = ground arith

module _ (pack : Outgoing → Bytes) (vehicle : ℕ) where
  update_known :
      (now : ℕ) (c : Configurator)
      → c.vehicle_system_id ≡ some vehicle
      → update pack true (some vehicle) now c ≡ continue_setup pack now c
  unfolding update
  update_known now c b = rw (holds_known c.vehicle_system_id vehicle b)

  update_new :
      (now : ℕ) (c : Configurator)
      → c.vehicle_system_id ≡ none
      → update pack true (some vehicle) now c ≡ continue_setup pack now (begin vehicle c)
  unfolding update
  update_new now c b = let e : holds c.vehicle_system_id vehicle ≡ false = ground arith in rw e

  -- A poll sends the next attempt where none is awaited, or where the deadline of one has passed.
  pub update_sends :
      (now : ℕ) (c : Configurator)
      → c.phase ≡ configuring
      → c.vehicle_system_id ≡ some vehicle
      → c.current_request < 6
      → c.attempt < maximum_attempts
      → (c.awaiting_ack ≡ true → c.acknowledgement_deadline ≤ now)
      → (r : StreamRequest) × (get_elem? stream_requests c.current_request ≡ some r)
        × (update pack true (some vehicle) now c
            ≡ returned (sent_at now c, some (request_frame pack c r)))
  unfolding continue_setup check_deadline request_frame
  update_sends now c p b l a d =
      let (r, e) = stream_requests-get c.current_request l in
      (
        r,
        e,
        update_known now c b
            ∙ ground (
              arith,
              send_request_lem pack now c r e,
              send_request_lem pack now (record c { awaiting_ack = false }) r e,
            ),
      )

  -- After the third attempt the deadline fails the setup, and nothing is sent.
  pub update_gives_up :
      (now : ℕ) (c : Configurator)
      → c.phase ≡ configuring
      → c.vehicle_system_id ≡ some vehicle
      → maximum_attempts ≤ c.attempt
      → c.awaiting_ack ≡ true
      → c.acknowledgement_deadline ≤ now
      → update pack true (some vehicle) now c
        ≡ returned (record c { phase = failed; failure_result = none }, none)
  unfolding continue_setup check_deadline
  update_gives_up now c p b a w d = update_known now c b ∙ ground arith

  accepted :
      (u : ℕ) (ack : CommandAck) (c : Configurator)
      → Accepts vehicle ack
      → c.phase ≡ configuring
      → c.vehicle_system_id ≡ some vehicle
      → c.awaiting_ack ≡ true
      → on_command_ack ack u c ≡ complete_request c
  unfolding on_command_ack
  accepted u ack c ok p b a = ground arith

  -- One round: a poll sends the request, and its acceptance completes it.
  round :
      (t u : ℕ) (ack : CommandAck) (es : List Event) (c : Configurator) (n : ℕ)
      → Accepts vehicle ack
      → IsReady vehicle c
      → run pack vehicle (polled t ∷ acked ack u ∷ es) (c, n)
        ≡ run pack vehicle es (complete_request (sent_at t c), n + 1)
  unfolding run step
  round t u ack es c n ok h =
      let (r, e, sent) =
        update_sends t c h.setting_up h.known (omega (arith, h.in_step, h.unfinished))
          (ground arith) (ground arith) in
      rw (sent, accepted u ack (sent_at t c) ok h.setting_up h.known refl)

  complete_request_last :
      (c : Configurator)
      → c.current_request ≡ c.completed_requests
      → c.completed_requests ≡ 5
      → (complete_request c).phase ≡ active
  unfolding complete_request stream_requests
  complete_request_last c i l = ground arith

  complete_request-IsReady :
      (t : ℕ) (c : Configurator)
      → IsReady vehicle c
      → c.completed_requests < 5
      → IsReady vehicle (complete_request (sent_at t c))
  unfolding complete_request stream_requests
  complete_request-IsReady t c h l = ground arith

  complete_request_count :
      (c : Configurator) → (complete_request c).completed_requests ≡ c.completed_requests + 1
  unfolding complete_request
  complete_request_count c = refl

  -- Polls, each answered by an acceptance.
  abbrev pub rounds : List (ℕ × CommandAck × ℕ) → List Event
  rounds [] = []
  rounds ((t, ack, u) ∷ rs) = polled t ∷ acked ack u ∷ rounds rs

  abbrev pub Accepted : List (ℕ × CommandAck × ℕ) → Type 0
  Accepted [] = Unit {0}
  Accepted ((t, ack, u) ∷ rs) = Accepts vehicle ack × Accepted rs

  -- Setup is over with success, and so many frames have been sent.
  abbrev Completes : ℕ → Outcome (Configurator × ℕ) → Type 0
  Completes n = Returns (λ s. (s.0.phase ≡ active) × (s.1 ≡ n))

  rounds_from :
      (rs : List (ℕ × CommandAck × ℕ)) (c : Configurator) (n m : ℕ)
      → Accepted rs
      → IsReady vehicle c
      → c.completed_requests + length rs ≡ 6
      → n + length rs ≡ m
      → Completes m (run pack vehicle (rounds rs) (c, n))
  rounds_from [] c n m ok h l e = absurd (omega (arith, h.unfinished))
  rounds_from ((t, ack, u) ∷ []) c n m (ok, oks) h l e =
      rw (round t u ack [] c n ok h)
        (unfold run in (complete_request_last (sent_at t c) h.in_step (omega arith), omega arith))
  rounds_from ((t, ack, u) ∷ r ∷ rs) c n m (ok, oks) h l e =
      rw (round t u ack (rounds (r ∷ rs)) c n ok h) (
        let d = complete_request (sent_at t c) in
        rounds_from (r ∷ rs) d (n + 1) m oks (complete_request-IsReady t c h (omega arith))
          (omega (arith, complete_request_count (sent_at t c))) (omega arith))

  begin-IsReady : (c : Configurator) → IsReady vehicle (begin vehicle c)
  unfolding begin reset
  begin-IsReady c = ground arith

  run-begin :
      (t : ℕ) (es : List Event)
      → run pack vehicle (polled t ∷ es) (initial, 0)
        ≡ run pack vehicle (polled t ∷ es) (begin vehicle initial, 0)
  unfolding run step initial begin reset
  run-begin t es = rw (update_new t initial refl, update_known t (begin vehicle initial) refl)

  -- Polls that see one connected vehicle, each followed by the vehicle's acceptance of the request, which
  -- names no target system or the vehicle's own and no target component or the companion: a new
  -- configurator is active after six of them, whatever the times, and has sent six frames.
  pub rounds-active :
      (rs : List (ℕ × CommandAck × ℕ))
      → Accepted rs
      → length rs ≡ 6
      → Completes 6 (run pack vehicle (rounds rs) (initial, 0))
  rounds-active [] ok l = absurd (omega arith)
  rounds-active ((t, ack, u) ∷ rs) ok l = rw run-begin (
      rounds_from ((t, ack, u) ∷ rs) (begin vehicle initial) 0 6 ok (begin-IsReady initial)
        (unfold begin reset in (omega arith)) (omega arith))

  -- The polls of a setup that meets no acknowledgement: those at `t0` to `t3`, and those in between,
  -- which come before the deadline of the attempt before them.
  abbrev pub silent_polls : ℕ → List ℕ → ℕ → List ℕ → ℕ → List ℕ → ℕ → List ℕ → List Event
  silent_polls t0 early1 t1 early2 t2 early3 t3 later =
      polled t0
      ∷ (map polled early1
          ++ (polled t1
              ∷ (map polled early2
                  ++ (polled t2 ∷ (map polled early3 ++ (polled t3 ∷ map polled later))))))
