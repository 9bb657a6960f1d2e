-- ===== src/Telemetry/Invariant.antt =====
-- The valid states of TelemetryStreamConfigurator.cpp, between two calls.
use onboard_autonomy.Base.{
  ℕ, zero, suc, ◌+◌, get_elem?, returned, ◌≤◌, ◌<◌, ◌≡◌, refl, Bool, true, false, Option, none,
  some, arith, has_value, holds, Bool-cases, inl, inr, Returns, ◌≢◌,
}
use onboard_autonomy.Mavlink.Messages.{CommandAck}
use onboard_autonomy.Mavlink.Encoder.{Bytes, Outgoing}
use onboard_autonomy.Telemetry.{
  StreamRequest, Configurator, waiting_for_vehicle, configuring, active, failed, maximum_attempts,
  acknowledgement_timeout, stream_requests, initial, reset, begin, request_frame, send_request,
  check_deadline, continue_setup, update, on_command_ack,
}

pub record IsValid (c : Configurator) : Type 0 where
  pub in_step : c.current_request ≡ c.completed_requests
  pub within : c.completed_requests ≤ 6
  pub bounded : c.attempt ≤ maximum_attempts
  pub unfinished : c.phase ≡ configuring → c.completed_requests < 6
  pub finished : c.phase ≡ active → c.completed_requests ≡ 6
  pub rested : c.completed_requests ≡ 6 → c.attempt ≡ 0
  pub idle : c.phase ≡ waiting_for_vehicle → c.vehicle_system_id ≡ none
  pub bound : c.phase ≢ waiting_for_vehicle → has_value c.vehicle_system_id ≡ true
  pub in_flight : c.awaiting_ack ≡ true → 0 < c.attempt
  pub settled : c.phase ≡ configuring → c.awaiting_ack ≡ false → c.attempt < maximum_attempts
  pub reason : c.failure_result ≢ none → c.phase ≡ failed

pub initial-IsValid : IsValid initial
unfolding initial
initial-IsValid = ground arith

-- Every stream below the sixth is in the table.
pub stream_requests-get :
    (n : ℕ) → n < 6 → (r : StreamRequest) × (get_elem? stream_requests n ≡ some r)
unfolding stream_requests
stream_requests-get zero h = (_, refl)
stream_requests-get (suc zero) h = (_, refl)
stream_requests-get (suc (suc zero)) h = (_, refl)
stream_requests-get (suc (suc (suc zero))) h = (_, refl)
stream_requests-get (suc (suc (suc (suc zero)))) h = (_, refl)
stream_requests-get (suc (suc (suc (suc (suc zero))))) h = (_, refl)
stream_requests-get (suc (suc (suc (suc (suc (suc n)))))) h = absurd (omega arith)

module _ (pack : Outgoing → Bytes) where
  -- The next attempt is sent, and what changes is the attempt, the flag and the deadline.
  pub send_request_lem :
      (now : ℕ) (c : Configurator) (r : StreamRequest)
      → get_elem? stream_requests c.current_request ≡ some r
      → send_request pack now c
        ≡ returned (
          record c {
            attempt = c.attempt + 1;
            awaiting_ack = true;
            acknowledgement_deadline = now + acknowledgement_timeout;
          },
          some (request_frame pack c r),
        )
  unfolding send_request
  send_request_lem now c r e = rw e

  send_request-IsValid :
      (now : ℕ) (c : Configurator)
      → IsValid c
      → c.phase ≡ configuring
      → c.attempt < maximum_attempts
      → Returns (λ r. IsValid r.0) (send_request pack now c)
  send_request-IsValid now c v p h =
      let (r, e) = stream_requests-get c.current_request (ground (arith, v.unfinished p)) in
      rw (send_request_lem now c r e) (ground arith)

  check_deadline-IsValid :
      (now : ℕ) (c : Configurator)
      → IsValid c
      → c.phase ≡ configuring
      → Returns (λ r. IsValid r.0) (check_deadline pack now c)
  unfolding check_deadline
  check_deadline-IsValid now c v p = ground (
    arith,
    λ (h : c.attempt < maximum_attempts).
        send_request-IsValid now (record c { awaiting_ack = false }) (ground arith) p h,
  )

  continue_setup-IsValid :
      (now : ℕ) (c : Configurator)
      → IsValid c
      → Returns (λ r. IsValid r.0) (continue_setup pack now c)
  unfolding continue_setup
  continue_setup-IsValid now c v =
      ground (arith, check_deadline-IsValid now c v, send_request-IsValid now c v)

  begin-IsValid : (id : ℕ) (c : Configurator) → IsValid (begin id c)
  unfolding begin reset
  begin-IsValid id c = ground arith

  reset-IsValid : (c : Configurator) → IsValid (reset c)
  unfolding reset
  reset-IsValid c = ground arith

  -- From a valid state `update` throws nothing, and leaves a valid state, whatever the connection.
  pub update-IsValid :
      (connected : Bool) (id : Option ℕ) (now : ℕ) (c : Configurator)
      → IsValid c
      → Returns (λ r. IsValid r.0) (update pack connected id now c)
  unfolding update
  update-IsValid connected none now c v = reset-IsValid c
  update-IsValid false (some id) now c v = reset-IsValid c
  update-IsValid true (some id) now c v = elim (Bool-cases (holds c.vehicle_system_id id)) [
    | inl known ↦ rw known (continue_setup-IsValid now c v)
    | inr other ↦ rw other (continue_setup-IsValid now (begin id c) (begin-IsValid id c))
  ]

pub on_command_ack-IsValid :
    (ack : CommandAck) (now : ℕ) (c : Configurator) → IsValid c → IsValid (on_command_ack ack now c)
unfolding on_command_ack stream_requests
on_command_ack-IsValid ack now c v = ground arith
