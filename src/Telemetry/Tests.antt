-- ===== src/Telemetry/Tests.antt =====
-- The theorems about the stream configurator at concrete sessions.
use onboard_autonomy.Base.{
  ℕ, ◌≤◌, ◌≡◌, refl, ◌⊎◌, inl, inr, none, some, List, [], ◌∷◌, arith, pos, Returns, returned, false,
  true,
}
use onboard_autonomy.Fixtures.{sample_pack}
use onboard_autonomy.Mavlink.Protocol.{
  mav_cmd_set_message_interval, mav_result_accepted, mav_result_denied,
}
use onboard_autonomy.Mavlink.Messages.{CommandAck}
use onboard_autonomy.Mavlink.Encoder.{companion_component_id}
use onboard_autonomy.Telemetry.{
  Configurator, active, failed, configuring, initial, update, on_command_ack,
}
use onboard_autonomy.Telemetry.Invariant.{IsValid, update-IsValid, on_command_ack-IsValid}
use onboard_autonomy.Telemetry.Session.{
  polled, acked, run, run_over, run-bounded, on_command_ack-genuine,
}
use onboard_autonomy.Telemetry.Progress.{Accepts, rounds, rounds-active}

abbrev acceptance : CommandAck
acceptance = record {
  source_system = 1;
  source_component = 1;
  command = mav_cmd_set_message_interval;
  result = mav_result_accepted;
  progress = 0;
  result_parameter = pos 0;
  target_system = 0;
  target_component = companion_component_id;
}

abbrev denial : CommandAck
denial = record acceptance { result = mav_result_denied }

abbrev one_round : ℕ × CommandAck × ℕ
one_round = (5, acceptance, 6)

abbrev addressed : CommandAck
addressed = record acceptance { target_system = 1 }

abbrev second_round : ℕ × CommandAck × ℕ
second_round = (7, addressed, 8)

abbrev six_rounds : List (ℕ × CommandAck × ℕ)
six_rounds = one_round ∷ second_round ∷ one_round ∷ one_round ∷ one_round ∷ second_round ∷ []

acceptance-Accepts : Accepts 1 acceptance
acceptance-Accepts = (refl, refl, refl, inl refl, inr refl)

addressed-Accepts : Accepts 1 addressed
addressed-Accepts = (refl, refl, refl, inr refl, inr refl)

rounds-active_example :
    Returns
      (λ s. (s.0.phase ≡ active) × (s.1 ≡ 6))
      (run sample_pack 1 (rounds sample_pack 1 six_rounds) (initial, 0))
rounds-active_example =
    rounds-active sample_pack 1 six_rounds
      (
        acceptance-Accepts,
        (
          addressed-Accepts,
          (acceptance-Accepts, (acceptance-Accepts, (acceptance-Accepts, (addressed-Accepts, tt)))),
        ),
      )
      refl

abbrev ready : Configurator
ready = record {
  phase = configuring;
  vehicle_system_id = some 1;
  current_request = 2;
  completed_requests = 2;
  attempt = 0;
  awaiting_ack = false;
  acknowledgement_deadline = 0;
  failure_result = none;
}

ready-IsValid : IsValid ready
ready-IsValid = ground arith

update-IsValid_example : Returns (λ r. IsValid r.0) (update sample_pack true (some 1) 7 ready)
update-IsValid_example = update-IsValid sample_pack true (some 1) 7 ready ready-IsValid

on_command_ack-IsValid_example :
    IsValid (on_command_ack denial 7 (record ready { attempt = 1; awaiting_ack = true }))
on_command_ack-IsValid_example =
    on_command_ack-IsValid denial 7 (record ready { attempt = 1; awaiting_ack = true })
      (ground arith)

run-bounded_example :
    Returns
      (λ s. IsValid s.0 × (s.1 ≤ 18))
      (run sample_pack 1 (polled 0 ∷ acked denial 1 ∷ []) (initial, 0))
run-bounded_example = run-bounded sample_pack 1 (polled 0 ∷ acked denial 1 ∷ [])

on_command_ack-genuine_example :
    (on_command_ack acceptance 7 ready ≡ ready)
    ⊎ ((ready.phase ≡ configuring)
        × (ready.awaiting_ack ≡ true)
        × (acceptance.command ≡ mav_cmd_set_message_interval)
        × (ready.vehicle_system_id ≡ some acceptance.source_system)
        × ((acceptance.target_system ≡ 0) ⊎ (acceptance.target_system ≡ acceptance.source_system))
        × ((acceptance.target_component ≡ 0)
            ⊎ (acceptance.target_component ≡ companion_component_id)))
on_command_ack-genuine_example = on_command_ack-genuine acceptance 7 ready

run_over_example :
    run sample_pack 1 (polled 0 ∷ acked acceptance 1 ∷ []) (record ready { phase = failed }, 4)
    ≡ returned (record ready { phase = failed }, 4)
run_over_example =
    run_over sample_pack 1 (polled 0 ∷ acked acceptance 1 ∷ []) (record ready { phase = failed }) 4
      refl (inr refl)
