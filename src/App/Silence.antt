-- ===== src/App/Silence.antt =====
-- The sending half of `poll` in CompanionApplication.cpp, without a vehicle.
use onboard_autonomy.Base.{
  ℕ, ◌≡◌, refl, ◌∙◌, inl, inr, Bool, false, Option, none, some, ltb, Floating, Bool-cases, Returns,
  returned,
}
use onboard_autonomy.Mavlink.Encoder.{Bytes, Outgoing}
use onboard_autonomy.Vehicle.Report.{VehicleSnapshot}
use onboard_autonomy.App.State.{App}
use onboard_autonomy.App.Events.{
  same_phase, start, record_event, observe_failsafe_phase, lose_vehicle, observe_vehicle,
}
use onboard_autonomy.App.Transport.{Transport}
use onboard_autonomy.App.Poll.{
  update_vehicle_connection, send_companion_heartbeat, send_setup, update_telemetry_setup,
  request_failsafe_parameter, request_vehicle_metadata, act,
}
use onboard_autonomy.Telemetry

update-disconnected :
    (pack : Outgoing → Bytes) (connected : Bool) (id : Option ℕ) (now : ℕ)
    (c : Telemetry.Configurator)
    → connected ≡ false
    → Telemetry.update pack connected id now c ≡ returned (Telemetry.initial, none)
unfolding Telemetry.update Telemetry.reset Telemetry.initial
update-disconnected pack connected none now c e = refl
update-disconnected pack connected (some id) now c e = rw e refl

module _ {C V T P D : Type 0} ⦃fp : Floating D⦄ where
  -- Two states with the same transport and the same telemetry setup.
  abbrev Alike : App C V T P D → App C V T P D → Type 0
  Alike a b = (a.transport ≡ b.transport) × (a.telemetry_configurator ≡ b.telemetry_configurator)

  observe_failsafe_phase-Alike :
      (now : ℕ) (app : App C V T P D) → Alike (observe_failsafe_phase now app) app
  unfolding observe_failsafe_phase
  observe_failsafe_phase-Alike now app =
      elim (Bool-cases
        (same_phase app.companion_link_failsafe.snapshot.phase app.previous_failsafe_phase)) [
          | inl known ↦ rw known (refl, refl)
          | inr fresh ↦ rw fresh (refl, refl)
        ]

  lose_vehicle-Alike : (now : ℕ) (app : App C V T P D) → Alike (lose_vehicle now app) app
  unfolding lose_vehicle record_event start
  lose_vehicle-Alike now app = elim (Bool-cases app.vehicle_was_connected) [
    | inl known ↦ rw known (refl, refl)
    | inr fresh ↦ rw fresh (refl, refl)
  ]

  update_vehicle_connection-Alike :
      (vehicle : VehicleSnapshot D) (now : ℕ) (app : App C V T P D)
      → vehicle.connected ≡ false
      → Alike (update_vehicle_connection vehicle now app) app
        × ((update_vehicle_connection vehicle now app).companion_heartbeat_active ≡ false)
  unfolding update_vehicle_connection observe_vehicle
  update_vehicle_connection-Alike vehicle now app c =
      let (t, s) = observe_failsafe_phase-Alike now _ in
      let (t', s') = lose_vehicle-Alike now _ in rw c ((t' ∙ t, s' ∙ s), refl)

module _ {C V T P D : Type 0} ⦃fp : Floating D⦄ (pack : Outgoing → Bytes)
    (transport : Transport T) where
  send_companion_heartbeat-Alike :
      (vehicle : VehicleSnapshot D) (now : ℕ) (app : App C V T P D)
      → vehicle.connected ≡ false
      → Alike (send_companion_heartbeat pack transport vehicle now app) app
        × ((send_companion_heartbeat pack transport vehicle now app).companion_heartbeat_active
            ≡ app.companion_heartbeat_active)
  unfolding send_companion_heartbeat
  send_companion_heartbeat-Alike vehicle now app c =
      elim (Bool-cases (ltb now app.next_heartbeat)) [
        | inl early ↦ rw early ((refl, refl), refl)
        | inr due ↦ rw (due, c) ((refl, refl), refl)
      ]

  -- While no vehicle is connected, the sending half of a poll throws nothing, writes nothing to the
  -- transport, and leaves the heartbeat inactive and the telemetry setup as it is at the start.
  pub act-silent :
      (vehicle : VehicleSnapshot D) (now : ℕ) (app : App C V T P D)
      → vehicle.connected ≡ false
      → Returns
          (λ a.
            (a.transport ≡ app.transport)
            × (a.companion_heartbeat_active ≡ false)
            × (a.telemetry_configurator ≡ Telemetry.initial))
          (act pack transport vehicle now app)
  unfolding act update_telemetry_setup send_setup request_failsafe_parameter
      request_vehicle_metadata Telemetry.initial
  act-silent vehicle now app c =
      let followed = update_vehicle_connection vehicle now app in
      let beaten = send_companion_heartbeat pack transport vehicle now followed in
      let ((t, s), h) = update_vehicle_connection-Alike vehicle now app c in
      let ((t', s'), h') = send_companion_heartbeat-Alike vehicle now followed c in
      let off =
        update-disconnected pack vehicle.connected vehicle.system_id now
          beaten.telemetry_configurator c in
      rw off (t' ∙ t, h' ∙ h, refl)
