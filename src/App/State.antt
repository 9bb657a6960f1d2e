-- ===== src/App/State.antt =====
-- The state of CompanionApplication::Impl, and the types of AppSnapshot.hpp that it holds.
-- What the observation sinks are told stands in a log, the newest entry first; the wall-clock time
-- that goes with it is not kept.
use onboard_autonomy.Base.{
  Outcome, returned, thrown, invalid_argument, some, ℕ, Bool, Option, none, List, [], Text, ℤ,
  false, Floating, text,
}
use onboard_autonomy.Vehicle.State.{VehicleState}
use onboard_autonomy.Camera.Monitor.{CameraMonitor}
use onboard_autonomy.App.Names.{LinkEventDirection, LinkEventStatus}
use onboard_autonomy.Vehicle
use onboard_autonomy.Camera
use onboard_autonomy.Telemetry
use onboard_autonomy.Failsafe

pub record LinkEvent : Type 0 where
  pub sequence : ℕ
  pub elapsed : ℤ
  pub direction : LinkEventDirection
  pub status : LinkEventStatus
  pub label : Text
  pub detail : Text

pub record LinkActivity : Type 0 where
  pub sequence : ℕ
  pub observed_at : ℤ
  pub message_name : Text
  pub detail : Text

-- A call of a RuntimeSnapshotSink during a poll.
pub data Observation (D : Type 0) : Type 0 where
  link_event : LinkEvent → Observation D
  failsafe_transition : Failsafe.Phase → Failsafe.Snapshot D → ℤ → Observation D

pub record SimulatedWindProfile (D : Type 0) : Type 0 where
  pub speed_m_s : D
  pub direction_from_deg : D
  pub turbulence_m_s : D

-- The transport `T`, the MAVLink receive state `P`, the camera `C` and the detector `V` are states
-- of what the application is given. A sink is a pointer, which may be null.
pub record App (C V T P D : Type 0) : Type 0 where
  pub transport : T
  pub parser : P
  pub simulated_wind : Option (SimulatedWindProfile D)
  pub vehicle_state : VehicleState D
  pub companion_link_failsafe : Failsafe.Failsafe D
  pub telemetry_configurator : Telemetry.Configurator
  pub camera_monitor : Option (CameraMonitor C V D)
  pub next_heartbeat : ℕ
  pub next_battery_parameter_request : ℕ
  pub next_failsafe_parameter_request : ℕ
  pub next_autopilot_version_request : ℕ
  pub started_at : Option ℕ
  pub link_events : List LinkEvent
  pub observation_sinks : List (Option ℕ)
  pub observed : List (ℕ × Observation D)
  pub previous_failsafe_phase : Failsafe.Phase
  pub next_event_sequence : ℕ
  pub next_activity_sequence : ℕ
  pub tx_activity : Option LinkActivity
  pub rx_activity : Option LinkActivity
  pub vehicle_was_connected : Bool
  pub previous_flight_mode : Option ℕ
  pub previous_armed : Option Bool
  pub autopilot_metadata_was_available : Bool
  pub companion_heartbeat_active : Bool
  pub failsafe_parameter_index : ℕ

module _ {C V T P D : Type 0} where
  unfoldable pub initial :
      T → P → Option (CameraMonitor C V D) → Option (SimulatedWindProfile D) → App C V T P D
  initial transport parser camera wind = record {
    transport = transport;
    parser = parser;
    simulated_wind = wind;
    vehicle_state = Vehicle.State.initial;
    companion_link_failsafe = Failsafe.initial;
    telemetry_configurator = Telemetry.initial;
    camera_monitor = camera;
    next_heartbeat = 0;
    next_battery_parameter_request = 0;
    next_failsafe_parameter_request = 0;
    next_autopilot_version_request = 0;
    started_at = none;
    link_events = [];
    observation_sinks = [];
    observed = [];
    previous_failsafe_phase = Failsafe.waiting_for_vehicle;
    next_event_sequence = 0;
    next_activity_sequence = 0;
    tx_activity = none;
    rx_activity = none;
    vehicle_was_connected = false;
    previous_flight_mode = none;
    previous_armed = none;
    autopilot_metadata_was_available = false;
    companion_heartbeat_active = false;
    failsafe_parameter_index = 0;
  }

  unfoldable pub set_observation_sinks : List (Option ℕ) → App C V T P D → App C V T P D
  set_observation_sinks sinks app = record app { observation_sinks = sinks }

module _ {C V T P D : Type 0} ⦃fp : Floating D⦄ where
  -- The constructor, with the camera source and the target detector of the options.
  unfoldable pub construct :
      T → P → Option C → Option V → Option (SimulatedWindProfile D) → Outcome (App C V T P D)
  construct transport parser none none wind = returned (initial transport parser none wind)
  construct transport parser none (some detector) wind =
      thrown (invalid_argument (text "vision requires a camera source"))
  construct transport parser (some source) detector wind =
      returned (initial transport parser (some (Camera.Monitor.initial source detector)) wind)
