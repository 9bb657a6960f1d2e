-- ===== src/App/Invariant.antt =====
-- The valid states of CompanionApplication::Impl, and what App/Events does to them.
use onboard_autonomy.Base.{
  ℕ, ◌≤◌, ◌<◌, ◌≡◌, refl, sym, inl, inr, Bool, true, false, not, Option, none, some, List, [], ◌∷◌,
  ◌++◌, arith, Text, length, length-append, length-drop, same, if◌then◌else◌, Floating, Bool-cases,
}
use onboard_autonomy.App.Names.{LinkEventDirection, LinkEventStatus, outbound, inbound}
use onboard_autonomy.App.State.{
  App, LinkEvent, Observation, set_observation_sinks, SimulatedWindProfile, initial,
}
use onboard_autonomy.Vehicle.State.{AutopilotMetadata}
use onboard_autonomy.Vehicle.Report.{VehicleSnapshot}
use onboard_autonomy.Camera.Monitor.{CameraMonitor}
use onboard_autonomy.App.Events.{
  same_phase, start, push_event, record_event, record_activity, observe_failsafe_phase,
  lose_vehicle, meet_vehicle, announce_metadata, announce_mode, announce_armed, differ,
  follow_vehicle, observe_vehicle, maximum_link_events,
}
use onboard_autonomy.App.Told.{IsReported, Told, Told-new, tell_event-Told, tell-Told}
use mathlib.Core.Path.{subst}
use onboard_autonomy.Telemetry
use onboard_autonomy.Failsafe

-- The parts of the state that a poll must keep in step.
pub record InStep {D : Type 0} ⦃fp : Floating D⦄ (events : List LinkEvent) (index : ℕ)
    (setup : Telemetry.Configurator) (sinks : List (Option ℕ)) (log : List (ℕ × Observation D))
    (link : Failsafe.Failsafe D) (reported : Failsafe.Phase) : Type 0 where
  pub few : length events ≤ maximum_link_events
  pub named : index < 4
  pub setup_valid : Telemetry.Invariant.IsValid setup
  pub link_valid : Failsafe.Invariant.IsValid link
  pub told : IsReported sinks log reported link.snapshot.phase

-- At most eight events are kept, the parameter to ask for is one of the four, the two state
-- machines are sound, and each sink was last told the phase that the failsafe is in.
abbrev pub IsValid : {C V T P D : Type 0} ⦃fp : Floating D⦄ → App C V T P D → Type 0
IsValid app =
    InStep app.link_events app.failsafe_parameter_index app.telemetry_configurator
      app.observation_sinks app.observed app.companion_link_failsafe app.previous_failsafe_phase

same_phase_sound : (p q : Failsafe.Phase) → same_phase p q ≡ true → p ≡ q
unfolding same_phase
same_phase_sound Failsafe.waiting_for_vehicle Failsafe.waiting_for_vehicle h = refl
same_phase_sound Failsafe.reading_parameters Failsafe.reading_parameters h = refl
same_phase_sound Failsafe.accepted Failsafe.accepted h = refl
same_phase_sound Failsafe.rejected Failsafe.rejected h = refl
same_phase_sound _ _ h = cc

pub push_event-short :
    (e : LinkEvent) (events : List LinkEvent)
    → length events ≤ maximum_link_events
    → length (push_event e events) ≤ maximum_link_events
unfolding push_event
push_event-short e events h =
    let sum = length-append events (e ∷ []) in
    let cut = length-drop 1 (events ++ (e ∷ [])) in ground (arith, sum, cut)

module _ {C V T P D : Type 0} ⦃fp : Floating D⦄ where
  pub initial-IsValid :
      (sinks : List (Option ℕ)) (t : T) (p : P) (camera : Option (CameraMonitor C V D))
      (wind : Option (SimulatedWindProfile D))
      → IsValid (set_observation_sinks sinks (initial t p camera wind))
  unfolding set_observation_sinks initial Failsafe.initial Failsafe.empty_snapshot
  initial-IsValid sinks t p camera wind = record {
    few = omega arith;
    named = omega arith;
    setup_valid = Telemetry.Invariant.initial-IsValid;
    link_valid = Failsafe.Invariant.initial-IsValid;
    told = (refl, Told-new D sinks);
  }

  pub record_event-IsValid :
      (direction : LinkEventDirection) (status : LinkEventStatus) (label detail : Text) (now : ℕ)
      (app : App C V T P D)
      → IsValid app
      → IsValid (record_event direction status label detail now app)
  unfolding record_event start
  record_event-IsValid direction status label detail now app v = record {
    few = push_event-short _ app.link_events v.few;
    named = v.named;
    setup_valid = v.setup_valid;
    link_valid = v.link_valid;
    told = (
      v.told.0,
      tell_event-Told app.observation_sinks app.observation_sinks _ app.observed _ v.told.1,
    );
  }

  pub record_activity-IsValid :
      (direction : LinkEventDirection) (name detail : Text) (now : ℕ) (app : App C V T P D)
      → IsValid app
      → IsValid (record_activity direction name detail now app)
  unfolding record_activity start
  record_activity-IsValid outbound name detail now app v = v
  record_activity-IsValid inbound name detail now app v = v

  -- After the failsafe changed: the sinks are told where its phase did.
  pub observe_failsafe_phase-IsValid :
      (now : ℕ) (app : App C V T P D)
      → Told app.observation_sinks app.observed app.previous_failsafe_phase
      → ((phase : Failsafe.Phase) (log : List (ℕ × Observation D))
          → IsReported app.observation_sinks log phase app.companion_link_failsafe.snapshot.phase
          → InStep app.link_events app.failsafe_parameter_index app.telemetry_configurator
              app.observation_sinks log app.companion_link_failsafe phase)
      → IsValid (observe_failsafe_phase now app)
  unfolding observe_failsafe_phase
  observe_failsafe_phase-IsValid now app before v =
      let current = app.companion_link_failsafe.snapshot.phase in
      elim (Bool-cases (same_phase current app.previous_failsafe_phase)) [
        | inl known ↦
            let e = same_phase_sound current app.previous_failsafe_phase known in
            rw known (
              v app.previous_failsafe_phase app.observed
                (sym e, subst (Told app.observation_sinks app.observed) (sym e) before))
        | inr fresh ↦ rw fresh (
            v current _ (
              refl,
              tell-Told app.observation_sinks app.previous_failsafe_phase
                  app.companion_link_failsafe.snapshot _ app.observed,
            ))
      ]

  pub choose-IsValid :
      (b : Bool) (x y : App C V T P D) → IsValid x → IsValid y → IsValid (if b then x else y)
  choose-IsValid true x y v w = v
  choose-IsValid false x y v w = w

  lose_vehicle-IsValid :
      (now : ℕ) (app : App C V T P D) → IsValid app → IsValid (lose_vehicle now app)
  unfolding lose_vehicle
  lose_vehicle-IsValid now app v =
      choose-IsValid app.vehicle_was_connected _ app (record_event-IsValid _ _ _ _ now app v) v

  meet_vehicle-IsValid :
      (vehicle : VehicleSnapshot D) (now : ℕ) (app : App C V T P D)
      → IsValid app
      → IsValid (meet_vehicle vehicle now app)
  unfolding meet_vehicle
  meet_vehicle-IsValid vehicle now app v = record_event-IsValid _ _ _ _ now app v

  announce_metadata-IsValid :
      (metadata : Option AutopilotMetadata) (now : ℕ) (app : App C V T P D)
      → IsValid app
      → IsValid (announce_metadata metadata now app)
  unfolding announce_metadata
  announce_metadata-IsValid none now app v = v
  announce_metadata-IsValid (some m) now app v =
      choose-IsValid app.autopilot_metadata_was_available app _ v
        (record_event-IsValid _ _ _ _ now app v)

  announce_mode-IsValid :
      (mode : Option ℕ) (now : ℕ) (app : App C V T P D)
      → IsValid app
      → IsValid (announce_mode mode now app)
  unfolding announce_mode
  announce_mode-IsValid none now app v = v
  announce_mode-IsValid (some m) now app v =
      choose-IsValid (same (some m) app.previous_flight_mode) app _ v
        (record_event-IsValid _ _ _ _ now app v)

  announce_armed-IsValid :
      (armed : Bool) (before : Option Bool) (now : ℕ) (app : App C V T P D)
      → IsValid app
      → IsValid (announce_armed armed before now app)
  unfolding announce_armed
  announce_armed-IsValid armed none now app v = v
  announce_armed-IsValid armed (some before) now app v =
      choose-IsValid (differ armed before) _ app (record_event-IsValid _ _ _ _ now app v) v

  follow_vehicle-IsValid :
      (vehicle : VehicleSnapshot D) (now : ℕ) (app : App C V T P D)
      → IsValid app
      → IsValid (follow_vehicle vehicle now app)
  unfolding follow_vehicle
  follow_vehicle-IsValid vehicle now app v = announce_armed-IsValid vehicle.armed _ now _ (
      announce_mode-IsValid vehicle.flight_mode now _
        (announce_metadata-IsValid vehicle.autopilot_metadata now app v))

  pub observe_vehicle-IsValid :
      (vehicle : VehicleSnapshot D) (now : ℕ) (app : App C V T P D)
      → IsValid app
      → IsValid (observe_vehicle vehicle now app)
  unfolding observe_vehicle
  observe_vehicle-IsValid vehicle now app v =
      choose-IsValid (not vehicle.connected) _ _ (lose_vehicle-IsValid now app v) (
        choose-IsValid (not app.vehicle_was_connected) _ _ (meet_vehicle-IsValid vehicle now app v)
          (follow_vehicle-IsValid vehicle now app v))
