-- ===== src/Telemetry/Session.antt =====
-- A session of the stream configurator with one connected vehicle: polls and acknowledgements in
-- any order, and the frames that it sends.
use onboard_autonomy.Base.{
  ℕ, ◌+◌, ◌*◌, ◌≤◌, ◌<◌, ◌≡◌, refl, true, false, Bool-cases, none, some, List, [], ◌∷◌, ◌⊎◌, inl,
  inr, arith, holds, Outcome, returned, ◌>>=◌, Returns, >>=-Returns, Returns-map, Returns-both,
}
use onboard_autonomy.Mavlink.Protocol.{mav_cmd_set_message_interval}
use onboard_autonomy.Mavlink.Messages.{CommandAck}
use onboard_autonomy.Mavlink.Encoder.{Bytes, Outgoing, companion_component_id}
use onboard_autonomy.Telemetry.{
  Configurator, configuring, active, failed, maximum_attempts, initial, reset, begin, send_request,
  check_deadline, continue_setup, update, on_command_ack, Reply,
}
use onboard_autonomy.Telemetry.Invariant.{
  IsValid, initial-IsValid, stream_requests-get, send_request_lem, update-IsValid,
  on_command_ack-IsValid,
}

pub data Event : Type 0 where
  polled : ℕ → Event
  acked : CommandAck → ℕ → Event

-- An acknowledgement changes nothing, unless it is one of SET_MESSAGE_INTERVAL from the configured
-- vehicle, while one is awaited in setup, whose target system is 0 or the vehicle's and whose target
-- component is 0 or the companion's.
pub on_command_ack-genuine :
    (ack : CommandAck) (now : ℕ) (c : Configurator)
    → (on_command_ack ack now c ≡ c)
      ⊎ ((c.phase ≡ configuring)
          × (c.awaiting_ack ≡ true)
          × (ack.command ≡ mav_cmd_set_message_interval)
          × (c.vehicle_system_id ≡ some ack.source_system)
          × ((ack.target_system ≡ 0) ⊎ (ack.target_system ≡ ack.source_system))
          × ((ack.target_component ≡ 0) ⊎ (ack.target_component ≡ companion_component_id)))
unfolding on_command_ack
on_command_ack-genuine ack now c = ground arith

module _ (pack : Outgoing → Bytes) (vehicle : ℕ) where
  abbrev count_frame : ℕ → Reply → Configurator × ℕ
  count_frame n (c, none) = (c, n)
  count_frame n (c, some frame) = (c, n + 1)

  unfoldable pub step : Event → Configurator × ℕ → Outcome (Configurator × ℕ)
  step (polled now) (c, n) = do
    reply ← update pack true (some vehicle) now c
    returned (count_frame n reply)
  step (acked ack now) (c, n) = returned (on_command_ack ack now c, n)

  unfoldable pub run : List Event → Configurator × ℕ → Outcome (Configurator × ℕ)
  run [] s = returned s
  run (e ∷ es) s = step e s >>= run es

  abbrev IsOver : Configurator → Type 0
  IsOver c = (c.phase ≡ active) ⊎ (c.phase ≡ failed)

  step_over :
      (e : Event) (c : Configurator) (n : ℕ)
      → c.vehicle_system_id ≡ some vehicle
      → IsOver c
      → step e (c, n) ≡ returned (c, n)
  unfolding step update continue_setup on_command_ack
  step_over (polled now) c n b h = ground arith
  step_over (acked ack now) c n b h = ground arith

  -- Once setup is active or has failed, nothing changes and nothing is sent while the same vehicle
  -- stays connected, whatever it acknowledges.
  pub run_over :
      (es : List Event) (c : Configurator) (n : ℕ)
      → c.vehicle_system_id ≡ some vehicle
      → IsOver c
      → run es (c, n) ≡ returned (c, n)
  unfolding run
  run_over [] c n b h = refl
  run_over (e ∷ es) c n b h = rw (step_over e c n b h) (run_over es c n b h)

  -- The frames that the setup so far accounts for.
  abbrev budget : Configurator → ℕ
  budget c = maximum_attempts * c.completed_requests + c.attempt

  -- Frames sent so far stay within the budget of a valid session.
  record Accounted (s : Configurator × ℕ) : Type 0 where
    valid : IsValid s.0
    known : (s.0.vehicle_system_id ≡ some vehicle) ⊎ (budget s.0 ≡ 0)
    paid : s.1 ≤ budget s.0

  abbrev Paid : ℕ → Reply → Type 0
  Paid n r = (r.0.vehicle_system_id ≡ some vehicle) × ((count_frame n r).1 ≤ budget r.0)

  send_request-Paid :
      (now : ℕ) (c : Configurator) (n : ℕ)
      → c.current_request < 6
      → c.vehicle_system_id ≡ some vehicle
      → n ≤ budget c
      → Returns (Paid n) (send_request pack now c)
  send_request-Paid now c n l b h =
      let (r, e) = stream_requests-get c.current_request l in
      rw (send_request_lem pack now c r e) (b, omega arith)

  continue_setup-Paid :
      (now : ℕ) (c : Configurator) (n : ℕ)
      → IsValid c
      → c.vehicle_system_id ≡ some vehicle
      → n ≤ budget c
      → Returns (Paid n) (continue_setup pack now c)
  unfolding continue_setup check_deadline
  continue_setup-Paid now c n v b h = ground (
    arith,
    send_request-Paid now c n,
    send_request-Paid now (record c { awaiting_ack = false }) n,
  )

  update-Paid :
      (now : ℕ) (s : Configurator × ℕ)
      → Accounted s
      → Returns (Paid s.1) (update pack true (some vehicle) now s.0)
  unfolding update begin reset
  update-Paid now (c, n) a = elim (Bool-cases (holds c.vehicle_system_id vehicle)) [
    | inl same ↦ rw same (continue_setup-Paid now c n a.valid (ground arith) a.paid)
    | inr other ↦
        rw other (
          continue_setup-Paid now (begin vehicle c) n (ground arith) refl (ground (arith, a.known)))
  ]

  count_frame-Accounted : (n : ℕ) (r : Reply) → IsValid r.0 × Paid n r → Accounted (count_frame n r)
  count_frame-Accounted n (c, none) (v, (b, p)) = record { valid = v; known = inl b; paid = p }
  count_frame-Accounted n (c, some f) (v, (b, p)) = record { valid = v; known = inl b; paid = p }

  on_command_ack-Accounted :
      (ack : CommandAck) (now : ℕ) (c : Configurator) (n : ℕ)
      → Accounted (c, n)
      → Accounted (on_command_ack ack now c, n)
  unfolding on_command_ack
  on_command_ack-Accounted ack now c n a = record {
    valid = on_command_ack-IsValid ack now c a.valid;
    known = ground arith;
    paid = ground arith;
  }

  step-Accounted : (e : Event) (s : Configurator × ℕ) → Accounted s → Returns Accounted (step e s)
  unfolding step
  step-Accounted (polled now) (c, n) a =
      >>=-Returns (λ r. IsValid r.0 × Paid n r) Accounted (update pack true (some vehicle) now c) _
        (Returns-both _ _ _ (update-IsValid pack true (some vehicle) now c a.valid)
          (update-Paid now (c, n) a))
        (λ r h. count_frame-Accounted n r h)
  step-Accounted (acked ack now) (c, n) a = on_command_ack-Accounted ack now c n a

  run-Accounted :
      (es : List Event) (s : Configurator × ℕ) → Accounted s → Returns Accounted (run es s)
  unfolding run
  run-Accounted [] s a = a
  run-Accounted (e ∷ es) s a =
      >>=-Returns Accounted Accounted (step e s) (run es) (step-Accounted e s a)
        (λ t h. run-Accounted es t h)

  -- While every poll sees the same vehicle connected, a new configurator never throws, stays valid, and
  -- sends at most eighteen frames, in any order of polls and acknowledgements.
  pub run-bounded :
      (es : List Event) → Returns (λ s. IsValid s.0 × (s.1 ≤ 18)) (run es (initial, 0))
  unfolding initial
  run-bounded es =
      Returns-map Accounted _ (run es (initial, 0))
        (λ s a. (a.valid, ground (arith, a.valid, a.paid)))
        (run-Accounted es (initial, 0)
          (record {
            valid = unfold initial in initial-IsValid;
            known = inr refl;
            paid = omega arith;
          }))
